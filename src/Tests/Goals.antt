-- ===== src/Tests/Goals.antt =====
-- The goal driver on concrete goals.
use apex_os_rv.Prelude.{◌≡◌, refl, none, [], ◌∷◌, ◌++◌, Text, arith}
use apex_os_rv.Protocol.Wire.{GoalState}
use apex_os_rv.Goal.Driver.{GoalDriver, Verdict, completed, stalled, emit_state, start, advance}
use apex_os_rv.Goal.Lifecycle.{started, advanced}
use apex_os_rv.Goal.Trace.{IsTraced, Reach-IsTraced}
use apex_os_rv.Goal.Refinement.{Turn, phase, advance-Turn}
use apex_os_rv.Goal.Steer.{AreSteered, turns, turns-AreSteered}
use apex_os_rv.Goal.Script
use apex_os_rv.Goal.Script.{ScriptedInference, new, script_success, script_stall, narrate}
use apex_os_rv.Goal.Script.Turns.{IsPrompted}
use apex_os_rv.Goal.Script.Narrate.{Narrated, run-start-narrate}
use apex_os_rv.Tests.Values.{plain, objective, acting_driver, acting_driver-IsValid}

prompted : IsPrompted (new script_success)
unfolding new
prompted = (tt, (tt, (tt, tt)))

run-start-narrate_example :
    Narrated plain 5
      (start plain 1 objective 5).0
      (new script_stall)
      (start plain 1 objective 5).1
      (narrate 5 1 script_stall)
run-start-narrate_example =
    run-start-narrate plain 1 objective 5 5 script_stall (tt, (tt, tt)) (omega arith)

advance-Turn_example :
    (detail : Text) × Turn 8
      (phase acting_driver)
      stalled
      (phase (advance plain acting_driver stalled).0)
      detail
    × ((advance plain acting_driver stalled).1
        ≡ emit_state plain (advance plain acting_driver stalled).0 detail ∷ [])
advance-Turn_example = advance-Turn plain acting_driver stalled acting_driver-IsValid refl (λ e. cc)

Reach-IsTraced_example :
    IsTraced plain 1 objective 8
      (advance plain (start plain 1 objective 8).0 stalled).0
      ((start plain 1 objective 8).1 ++ (advance plain (start plain 1 objective 8).0 stalled).1)
Reach-IsTraced_example = Reach-IsTraced plain 1 objective 8 (advanced stalled started)

abbrev failed_driver : GoalDriver
failed_driver = record acting_driver { state = GoalState.failed }

-- A verdict that arrives with the last step of the budget ends the goal.
advance-budget :
    (advance plain (record acting_driver { step = 8 }) (completed (Verdict.continue none))).0.state
    ≡ GoalState.done
unfolding advance
advance-budget = refl

turns-AreSteered_example :
    AreSteered acting_driver.steer (turns plain Script.next 5 acting_driver (new script_success))
turns-AreSteered_example = turns-AreSteered plain Script.next 5 acting_driver (new script_success)
