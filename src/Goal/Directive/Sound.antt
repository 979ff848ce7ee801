-- ===== src/Goal/Directive/Sound.antt =====
-- Where a verdict comes from, and what it can hold (agent-core/src/goal.rs, `parse_goal_step`).
use mathlib.Core.List.{reverse}
use apex_os_rv.Prelude.{
  ◌≡◌, ◌≢◌, refl, Bool, true, false, Option, none, some, List, [], ◌∷◌, ◌++◌, Text, codes, All,
  Option-cases, inl, inr, ap, subst, ◌==◌, list_eq, nat_eq, arith, if◌then◌else◌,
}
use apex_os_rv.Str.Trim.{
  trim, is_empty, is_whitespace, strip_prefix, split_once, IsStartTrimmed, IsEndTrimmed,
  trim-IsTrimmed,
}
use apex_os_rv.Str.Lines.{lines}
use apex_os_rv.Goal.Driver.{Verdict}
use apex_os_rv.Goal.Directive.{marker, word_and_tail, read_words, verdict_of, scan, parse_goal_step}

-- A line that holds no verdict, since it does not begin with the marker.
abbrev pub IsUnmarked : Text → Type 0
IsUnmarked line = strip_prefix marker (trim line) ≡ none

-- A text that is not empty and has no white space at its ends.
abbrev pub IsTidy : Text → Type 0
IsTidy s = (s ≢ []) × IsStartTrimmed s × IsEndTrimmed s

abbrev pub HasTidyText : Verdict → Type 0
HasTidyText (Verdict.blocked r) = IsTidy r
HasTidyText (Verdict.continue (some s)) = IsTidy s
HasTidyText _ = Unit {0}

abbrev MayHold : Option Verdict → Type 0
MayHold none = Unit
MayHold (some v) = HasTidyText v

MayHold-if :
    (b : Bool) (x y : Option Verdict) → MayHold x → MayHold y → MayHold (if b then x else y)
MayHold-if true x y hx hy = hx
MayHold-if false x y hx hy = hy

default_reason : IsTidy (codes "blocked")
default_reason = (λ e. cc, unfold is_whitespace in refl, unfold is_whitespace in refl)

blocked-MayHold :
    (tail : Text)
    → IsStartTrimmed tail
    → IsEndTrimmed tail
    → IsTidy (if is_empty tail then codes "blocked" else tail)
blocked-MayHold [] a b = default_reason
blocked-MayHold (c ∷ tail) a b = (λ e. cc, a, b)

continue-MayHold :
    (tail : Text)
    → IsStartTrimmed tail
    → IsEndTrimmed tail
    → HasTidyText (Verdict.continue (if is_empty tail then none else some tail))
continue-MayHold [] a b = tt
continue-MayHold (c ∷ tail) a b = (λ e. cc, a, b)

verdict_of-MayHold :
    (word tail : Text) → IsStartTrimmed tail → IsEndTrimmed tail → MayHold (verdict_of (word, tail))
unfolding verdict_of
verdict_of-MayHold word tail a b = MayHold-if (word == codes "done") _ _ tt (
    MayHold-if (word == codes "blocked") _ _ (blocked-MayHold tail a b)
      (MayHold-if (word == codes "continue") _ _ (continue-MayHold tail a b) tt))

verdict_of-HasTidyText :
    (word tail : Text) (v : Verdict)
    → IsStartTrimmed tail
    → IsEndTrimmed tail
    → verdict_of (word, tail) ≡ some v
    → HasTidyText v
verdict_of-HasTidyText word tail v a b e = subst MayHold e (verdict_of-MayHold word tail a b)

read_words-HasTidyText :
    (said : Text) (v : Verdict) → verdict_of (read_words said) ≡ some v → HasTidyText v
unfolding read_words
read_words-HasTidyText said v e = go (split_once said) e
  where
    go : (o : Option (Text × Text)) → verdict_of (word_and_tail said o) ≡ some v → HasTidyText v
    go none e = verdict_of-HasTidyText said [] v tt tt e
    go (some (w, t)) e = let (a, b) = trim-IsTrimmed t in verdict_of-HasTidyText w (trim t) v a b e

-- The line that decides, among lines that stand last first.
pub record IsDecided (ls : List Text) (v : Verdict) : Type 0 where
  pub behind : List Text
  pub line : Text
  pub before : List Text
  pub said : Text
  pub split : ls ≡ behind ++ line ∷ before
  pub unmarked : All IsUnmarked behind
  pub marked : strip_prefix marker (trim line) ≡ some said
  pub reads : verdict_of (read_words (trim said)) ≡ some v

scan-IsDecided : (ls : List Text) (v : Verdict) → scan ls ≡ some v → IsDecided ls v
unfolding scan
scan-IsDecided [] v e = absurd (ground arith)
scan-IsDecided (l ∷ ls) v e = elim (Option-cases (strip_prefix marker (trim l))) [
  | inl u ↦
      let d = scan-IsDecided ls v (rw u at e) in
      record {
        behind = l ∷ d.behind;
        line = d.line;
        before = d.before;
        said = d.said;
        split = ap (◌∷◌ l) d.split;
        unmarked = (u, d.unmarked);
        marked = d.marked;
        reads = d.reads;
      }
  | inr (said, m) ↦ record {
    behind = [];
    line = l;
    before = ls;
    said = said;
    split = refl;
    unmarked = tt;
    marked = m;
    reads = rw m at e;
  }
]

scan-eq-none : (ls : List Text) → All IsUnmarked ls → scan ls ≡ none
unfolding scan
scan-eq-none [] h = refl
scan-eq-none (l ∷ ls) (u, us) = rw u (scan-eq-none ls us)

-- A verdict comes from the last line that begins with the marker, and it carries no text that is
-- empty or has white space at an end.
pub parse_goal_step_sound :
    (reply : Text) (v : Verdict)
    → parse_goal_step reply ≡ some v
    → IsDecided (reverse (lines reply)) v × HasTidyText v
unfolding parse_goal_step
parse_goal_step_sound reply v e =
    let d = scan-IsDecided (reverse (lines reply)) v e in
    (d, read_words-HasTidyText (trim d.said) v d.reads)

-- A reply whose lines all lack the marker has no verdict.
pub parse_goal_step_silent :
    (reply : Text) → All IsUnmarked (reverse (lines reply)) → parse_goal_step reply ≡ none
unfolding parse_goal_step
parse_goal_step_silent reply h = scan-eq-none (reverse (lines reply)) h
