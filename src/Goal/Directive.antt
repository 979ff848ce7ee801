-- ===== src/Goal/Directive.antt =====
-- `step_directive` and `parse_goal_step` (agent-core/src/goal.rs).
pub mod RoundTrip
pub mod Sound
use mathlib.Core.List.{reverse}
use apex_os_rv.Prelude.{
  ℕ, Bool, true, false, Option, none, some, List, [], ◌∷◌, ◌++◌, Text, codes, ◌==◌, list_eq, nat_eq,
  if◌then◌else◌,
}
use apex_os_rv.Str.Trim.{is_empty, trim, strip_prefix, split_once}
use apex_os_rv.Str.Lines.{newline, lines}
use apex_os_rv.Str.Decimal.{decimal}
use apex_os_rv.Goal.Driver.{TickContext, Verdict}

abbrev pub marker : Text
marker = codes "GOAL_STEP:"

-- The last line of every directive.
abbrev pub convention : Text
convention =
    codes "GOAL_STEP: continue <optional steer for the next step> | done | blocked <reason>"

-- The directive but for the line feed and the convention at its end.
unfoldable pub directive_body : TickContext → Text
directive_body ctx =
    codes "[apexos-rv goal driver — step "
    ++ (decimal ctx.step
        ++ (codes "/"
            ++ (decimal ctx.max_steps
                ++ (codes "] Objective: "
                    ++ (ctx.objective
                        ++ (newline
                            ∷ (codes
                                  "You are executing one bounded step of this goal on a bare-metal RISC-V node. Do this step's work in your reply."
                                ++ (elim ctx.steer [
                                  | none ↦ []
                                  | some s ↦ newline ∷ (codes "Steer from the previous step: " ++ s)
                                ]
                                    ++ newline
                                      ∷ codes "End your reply with exactly one line:"))))))))

unfoldable pub step_directive : TickContext → Text
step_directive ctx = directive_body ctx ++ newline ∷ convention

-- The word and the tail of a verdict line, behind the marker and trimmed.
abbrev pub word_and_tail : Text → Option (Text × Text) → Text × Text
word_and_tail rest (some (w, t)) = (w, trim t)
word_and_tail rest none = (rest, [])

-- `rest` is trimmed already.
unfoldable pub read_words : Text → Text × Text
read_words rest = word_and_tail rest (split_once rest)

-- The match on the word.
unfoldable pub verdict_of : Text × Text → Option Verdict
verdict_of (word, tail) =
    if word == codes "done"
    then some Verdict.done
    else if word == codes "blocked"
    then some (Verdict.blocked (if is_empty tail then codes "blocked" else tail))
    else if word == codes "continue"
    then some (Verdict.continue (if is_empty tail then none else some tail))
    else none

-- The decision at one line: `continue` without the marker, and a return with it.
unfoldable pub decide : Option Text → Option Verdict → Option Verdict
decide none rest = rest
decide (some said) rest = verdict_of (read_words (trim said))

-- The loop over the lines, which stand last first.
unfoldable pub scan : List Text → Option Verdict
unfolding decide
scan [] = none
scan (line ∷ before) = let rest = scan before in decide (strip_prefix marker (trim line)) rest

unfoldable pub parse_goal_step : Text → Option Verdict
parse_goal_step reply = scan (reverse (lines reply))
