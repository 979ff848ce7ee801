-- ===== src/Tests/Directives.antt =====
-- Directives and replies.
use mathlib.Core.List.{reverse}
use apex_os_rv.Prelude.{true, ◌+◌, ◌≡◌, refl, some, ◌++◌, ◌∷◌, Text, codes, All, arith}
use apex_os_rv.Str.Trim.{is_whitespace, trim, trim_start, trim_end, strip_prefix}
use apex_os_rv.Str.Lines.{newline, lines, lines_from, strip_cr}
use apex_os_rv.Goal.Driver.{Verdict, completed, advance, tick_context, is_acting, u32}
use apex_os_rv.Goal.Directive.{step_directive, parse_goal_step}
use apex_os_rv.Goal.Directive.RoundTrip.{
  verdict_line, IsSayable, placeholder, parse-verdict_line, advance-step_directive,
}
use apex_os_rv.Goal.Directive.Sound.{IsUnmarked, HasTidyText, parse_goal_step_sound, IsDecided}
use apex_os_rv.Tests.Values.{plain, acting_driver}

abbrev said : Text
said = codes "Three of four sensors answer."

abbrev steered : Verdict
steered = Verdict.continue (some (codes "ask the fourth"))

steered-IsSayable : IsSayable steered
unfolding is_whitespace
steered-IsSayable = record { one_line = omega arith; start = refl; end = refl; some_text = λ e. cc }

said-IsUnmarked : All IsUnmarked (reverse (lines said))
unfolding lines lines_from strip_cr trim trim_start trim_end strip_prefix is_whitespace
said-IsUnmarked = (refl, tt)

parse-verdict_line_example : parse_goal_step (said ++ newline ∷ verdict_line steered) ≡ some steered
parse-verdict_line_example = parse-verdict_line said steered steered-IsSayable

advance-step_directive_example :
    (v : Verdict) × (parse_goal_step (step_directive (tick_context acting_driver)) ≡ some v)
    × let d = (advance plain acting_driver (completed v)).0 in
      (is_acting d.state ≡ true)
      × (d.step ≡ u32 (acting_driver.step + 1))
      × ((tick_context d).steer ≡ some placeholder)
advance-step_directive_example = advance-step_directive plain acting_driver refl (omega arith)

abbrev reply : Text
reply = said ++ newline ∷ codes "GOAL_STEP: done"

parse_goal_step_sound_example :
    IsDecided (reverse (lines reply)) Verdict.done × HasTidyText Verdict.done
parse_goal_step_sound_example =
    parse_goal_step_sound reply Verdict.done (parse-verdict_line said Verdict.done tt)
