-- ===== src/Goal/Directive/RoundTrip.antt =====
-- A verdict line at the end of a reply is read back, whatever stands before it.
use apex_os_rv.Prelude.{
  true, ◌+◌, ◌<◌, leb, ℕ, ◌≡◌, ◌≢◌, refl, false, none, some, [], ◌∷◌, ◌++◌, Text, codes, All,
  All-append, ◌∙◌, ap, list_eq, nat_eq, arith,
}
use apex_os_rv.Str.Trim.{
  is_whitespace, trim, trim_start, strip_prefix, split_once, IsStartTrimmed, IsEndTrimmed,
  trim_end_of_IsEndTrimmed, trim_start_of_IsStartTrimmed, trim_of_trimmed, IsEndTrimmed-append,
  strip_prefix-append,
}
use apex_os_rv.Str.Lines.{newline, IsOneLine, reverse-lines_last}
use apex_os_rv.Protocol.Wire.{Wire}
use apex_os_rv.Goal.Driver.{
  GoalDriver, u32, is_acting, completed, advance, tick_context, TickContext, Verdict,
}
use apex_os_rv.Goal.Directive.{
  marker, directive_body, step_directive, read_words, verdict_of, scan, parse_goal_step,
}

-- A text that can stand in a verdict line: trimmed, on one line, and not empty.
pub record IsPhrase (s : Text) : Type 0 where
  pub one_line : IsOneLine s
  pub start : IsStartTrimmed s
  pub end : IsEndTrimmed s
  pub some_text : s ≢ []

-- The line by which a verdict is reported.
abbrev pub verdict_line : Verdict → Text
verdict_line Verdict.done = codes "GOAL_STEP: done"
verdict_line (Verdict.blocked r) = codes "GOAL_STEP: blocked " ++ r
verdict_line (Verdict.continue none) = codes "GOAL_STEP: continue"
verdict_line (Verdict.continue (some s)) = codes "GOAL_STEP: continue " ++ s

abbrev pub IsSayable : Verdict → Type 0
IsSayable (Verdict.blocked r) = IsPhrase r
IsSayable (Verdict.continue (some s)) = IsPhrase s
IsSayable _ = Unit {0}

-- The last line decides, if it holds the marker.
parse-last :
    (body line said : Text)
    → IsOneLine line
    → line ≢ []
    → strip_prefix marker (trim line) ≡ some said
    → parse_goal_step (body ++ newline ∷ line) ≡ verdict_of (read_words (trim said))
unfolding parse_goal_step scan
parse-last body line said h ne e =
    let (before, last) = reverse-lines_last body line h ne in rw (last, e)

abbrev IsWord : Text → Type 0
IsWord = All (λ c. is_whitespace c ≡ false)

abbrev space : ℕ
space = 32

-- A word and a phrase behind it.
abbrev phrase : Text → Text → Text
phrase w r = w ++ space ∷ r

split_once-phrase : (w r : Text) → IsWord w → split_once (phrase w r) ≡ some (w, r)
unfolding split_once is_whitespace
split_once-phrase [] r h = refl
split_once-phrase (c ∷ w) r (h, hs) = rw (h, split_once-phrase w r hs)

phrase-IsEndTrimmed : (w r : Text) → IsPhrase r → IsEndTrimmed (phrase w r)
phrase-IsEndTrimmed w [] p = absurd (p.some_text refl)
phrase-IsEndTrimmed w (c ∷ r) p = IsEndTrimmed-append w space (c ∷ r) p.end

phrase-IsStartTrimmed : (w r : Text) → IsWord w → w ≢ [] → IsStartTrimmed (phrase w r)
phrase-IsStartTrimmed [] r h ne = absurd (ne refl)
phrase-IsStartTrimmed (c ∷ w) r h ne = h.0

trim-space : (s : Text) → IsStartTrimmed s → IsEndTrimmed (space ∷ s) → trim (space ∷ s) ≡ s
unfolding trim trim_start
trim-space [] a b = absurd (unfold is_whitespace in cc)
trim-space (c ∷ s) a b =
    rw (trim_end_of_IsEndTrimmed (space ∷ c ∷ s) b)
      (unfold is_whitespace in trim_start_of_IsStartTrimmed (c ∷ s) a)

read_words-phrase :
    (w r : Text) → IsWord w → w ≢ [] → IsPhrase r → read_words (trim (space ∷ phrase w r)) ≡ (w, r)
unfolding read_words
read_words-phrase w r h ne p = rw (
  trim-space (phrase w r) (phrase-IsStartTrimmed w r h ne) (phrase-IsEndTrimmed (space ∷ w) r p),
  split_once-phrase w r h,
  trim_of_trimmed r p.start p.end,
)

-- The marker with anything behind it that is trimmed at its end.
marked_line :
    (said : Text)
    → said ≢ []
    → IsEndTrimmed said
    → strip_prefix marker (trim (marker ++ said)) ≡ some said
marked_line [] ne h = absurd (ne refl)
marked_line (c ∷ said) ne h =
    rw (trim_of_trimmed (marker ++ c ∷ said) (unfold is_whitespace in refl) h)
      (strip_prefix-append marker (c ∷ said))

marked-IsOneLine : (said : Text) → IsOneLine said → IsOneLine (marker ++ said)
marked-IsOneLine said h = All-append _ marker said (omega arith) h

-- A line of the marker, a word and a phrase is decided by the word and the phrase.
parse-phrase :
    (body w r : Text)
    → IsOneLine w
    → IsWord w
    → w ≢ []
    → IsPhrase r
    → parse_goal_step (body ++ newline ∷ (marker ++ space ∷ phrase w r)) ≡ verdict_of (w, r)
parse-phrase body w r o h ne p =
    parse-last body (marker ++ space ∷ phrase w r) (space ∷ phrase w r)
      (marked-IsOneLine (space ∷ phrase w r)
        (omega arith, All-append _ w (space ∷ r) o (omega arith, p.one_line)))
      (λ e. cc) (marked_line (space ∷ phrase w r) (λ e. cc) (phrase-IsEndTrimmed (space ∷ w) r p))
    ∙ ap verdict_of (read_words-phrase w r h ne p)

verdict_of-blocked :
    (r : Text) → r ≢ [] → verdict_of (codes "blocked", r) ≡ some (Verdict.blocked r)
unfolding verdict_of
verdict_of-blocked [] ne = absurd (ne refl)
verdict_of-blocked (c ∷ r) ne = refl

verdict_of-continue :
    (r : Text) → r ≢ [] → verdict_of (codes "continue", r) ≡ some (Verdict.continue (some r))
unfolding verdict_of
verdict_of-continue [] ne = absurd (ne refl)
verdict_of-continue (c ∷ r) ne = refl

-- Behind any text, the line that reports a verdict is read as that verdict, where the reason or
-- steer is a trimmed text on one line that is not empty.
pub parse-verdict_line :
    (body : Text) (v : Verdict)
    → IsSayable v
    → parse_goal_step (body ++ newline ∷ verdict_line v) ≡ some v
parse-verdict_line body Verdict.done h =
    parse-last body (verdict_line Verdict.done) (codes " done") (omega arith) (λ e. cc)
      (marked_line (codes " done") (λ e. cc) (unfold is_whitespace in refl))
    ∙ unfold trim is_whitespace read_words split_once verdict_of in refl
parse-verdict_line body (Verdict.blocked r) h =
    parse-phrase body (codes "blocked") r (omega arith) (unfold is_whitespace in ground arith)
      (λ e. cc) h
    ∙ verdict_of-blocked r h.some_text
parse-verdict_line body (Verdict.continue none) h =
    parse-last body (verdict_line (Verdict.continue none)) (codes " continue") (omega arith)
      (λ e. cc) (marked_line (codes " continue") (λ e. cc) (unfold is_whitespace in refl))
    ∙ unfold trim is_whitespace read_words split_once verdict_of in refl
parse-verdict_line body (Verdict.continue (some s)) h =
    parse-phrase body (codes "continue") s (omega arith) (unfold is_whitespace in ground arith)
      (λ e. cc) h
    ∙ verdict_of-continue s h.some_text

abbrev pub placeholder : Text
placeholder = codes "<optional steer for the next step> | done | blocked <reason>"

-- A reply that only repeats the directive reads as `continue` with the placeholder of the
-- convention.
parse-step_directive :
    (ctx : TickContext)
    → parse_goal_step (step_directive ctx) ≡ some (Verdict.continue (some placeholder))
unfolding step_directive
parse-step_directive ctx =
    parse-verdict_line (directive_body ctx) (Verdict.continue (some placeholder)) (record {
      one_line = omega arith;
      start = unfold is_whitespace in refl;
      end = unfold is_whitespace in refl;
      some_text = λ e. cc;
    })

-- A reply that only repeats the directive of an acting goal's turn is no missing verdict: it is
-- read as one, and where the goal is below its budget that verdict takes it to the next step,
-- whose turn is shown the placeholder of the convention as its steer.
pub advance-step_directive :
    (w : Wire) (d : GoalDriver)
    → is_acting d.state ≡ true
    → d.step < d.max_steps
    → (v : Verdict) × (parse_goal_step (step_directive (tick_context d)) ≡ some v)
      × let d' = (advance w d (completed v)).0 in
        (is_acting d'.state ≡ true)
        × (d'.step ≡ u32 (d.step + 1))
        × ((tick_context d').steer ≡ some placeholder)
unfolding advance tick_context
advance-step_directive w d acts below =
    let early : leb d.max_steps d.step ≡ false = ground arith in
    (
      Verdict.continue (some placeholder),
      parse-step_directive (tick_context d),
      rw (acts, early) (acts, refl, refl),
    )
