-- ===== src/Tests/Suite/Replies.antt =====
-- The tests of the directive and of the reader of its verdict (agent-core/src/goal.rs, `mod tests`).
use apex_os_rv.Prelude.{
  ◌≡◌, refl, Bool, true, false, ◌&&◌, ◌||◌, Option, none, some, [], ◌∷◌, Text, codes, ◌==◌, list_eq,
  nat_eq, eqb,
}
use apex_os_rv.Str.Trim.{
  is_whitespace, is_empty, trim, trim_start, trim_end, strip_prefix, split_once,
}
use apex_os_rv.Str.Lines.{lines, lines_from, strip_cr}
use apex_os_rv.Str.Decimal.{decimal, digits}
use apex_os_rv.Goal.Driver.{TickContext, Verdict}
use apex_os_rv.Goal.Directive.{
  directive_body, step_directive, scan, read_words, verdict_of, parse_goal_step,
}

abbrev begins : Text → Text → Bool
begins [] s = true
begins (c ∷ p) [] = false
begins (c ∷ p) (d ∷ s) = eqb c d && begins p s

-- `str::contains`
abbrev contains : Text → Text → Bool
contains p [] = is_empty p
contains p (c ∷ s) = begins p (c ∷ s) || contains p s

abbrev context : TickContext
context = record {
  goal = 1;
  objective = codes "map the sensor field";
  step = 3;
  max_steps = 8;
  steer = some (codes "focus the thermal array");
}

abbrev step_directive_carries_objective_budget_steer_and_convention : Bool
step_directive_carries_objective_budget_steer_and_convention =
    let d = step_directive context in
    contains (codes "step 3/8") d
    && contains (codes "map the sensor field") d
    && contains (codes "focus the thermal array") d
    && contains (codes "GOAL_STEP:") d

-- The verdict of a reply, as the test's patterns read it.
abbrev is_verdict : Verdict → Option Verdict → Bool
is_verdict Verdict.done (some Verdict.done) = true
is_verdict (Verdict.blocked r) (some (Verdict.blocked s)) = r == s
is_verdict (Verdict.continue none) (some (Verdict.continue none)) = true
is_verdict (Verdict.continue (some a)) (some (Verdict.continue (some b))) = a == b
is_verdict _ _ = false

abbrev is_none : Option Verdict → Bool
is_none none = true
is_none (some v) = false

abbrev parse_goal_step_covers_the_verdict_grammar : Bool
parse_goal_step_covers_the_verdict_grammar =
    is_verdict Verdict.done (parse_goal_step (codes "work...\nGOAL_STEP: done"))
    && is_verdict (Verdict.blocked (codes "waiting on operator"))
        (parse_goal_step (codes "GOAL_STEP: blocked waiting on operator"))
    && is_verdict (Verdict.continue (some (codes "check the CLINT next")))
        (parse_goal_step (codes "GOAL_STEP: continue check the CLINT next"))
    && is_verdict (Verdict.continue none) (parse_goal_step (codes "text\nGOAL_STEP: continue"))
    && is_none (parse_goal_step (codes "GOAL_STEP: interpretive_dance"))
    && is_none (parse_goal_step (codes "no verdict anywhere"))
    && is_verdict (Verdict.continue none)
        (parse_goal_step (codes "GOAL_STEP: done\n...quoting docs...\nGOAL_STEP: continue"))

directive_holds : step_directive_carries_objective_budget_steer_and_convention ≡ true
unfolding step_directive directive_body decimal digits
directive_holds = refl

grammar_holds : parse_goal_step_covers_the_verdict_grammar ≡ true
unfolding parse_goal_step scan lines lines_from strip_cr strip_prefix trim trim_start trim_end
    is_whitespace verdict_of read_words split_once
grammar_holds = refl
