-- ===== src/Kernel/Boot/Success.antt =====
-- The goal of the compiled-in script, by `run` (agent-core/src/goal.rs).
use apex_os_rv.Prelude.{
  ℕ, zero, suc, ◌≤◌, ◌≡◌, refl, ap, false, none, some, Option, List, [], ◌∷◌, Text, arith,
}
use mathlib.Core.Option.{some_inj}
use apex_os_rv.Protocol.Wire.{Wire, acting, done}
use apex_os_rv.Protocol.Event.{Event, goal_state_changed}
use apex_os_rv.Goal.Driver.{GoalDriver, start, advance, poll, run, tick_context}
use apex_os_rv.Goal.Script
use apex_os_rv.Goal.Script.{ScriptedInference, new, script_success, script_hang}
use apex_os_rv.Kernel.Watchdog.{Loop}
use apex_os_rv.Kernel.Watchdog.Transparent.{seen}

-- The events of a goal that the compiled-in script takes to its end.
abbrev pub success_events : {w : Wire} → Text → List (Event w)
success_events o =
    goal_state_changed 1 o acting 1 8 [] false
    ∷ goal_state_changed 1 o acting 2 8 [] false
    ∷ goal_state_changed 1 o acting 3 8 [] false
    ∷ goal_state_changed 1 o done 3 8 [] false
    ∷ []

unfoldable pub finished : Text → GoalDriver
finished o = record { goal = 1; objective = o; state = done; step = 3; max_steps = 8; steer = none }

module _ (w : Wire) where
  pub run-success :
      (o : Text) (fuel : ℕ)
      → 4 ≤ fuel
      → let (d, events) = start w 1 o 8 in
        run w Script.next fuel d (new script_success) events
        ≡ some (finished o, record { steps = script_success; at = 3 }, success_events o)
  unfolding start run Script.next Script.reading new advance poll tick_context finished
  run-success o (suc (suc (suc (suc fuel)))) enough = refl
  run-success o zero enough = absurd (omega arith)
  run-success o (suc zero) enough = absurd (omega arith)
  run-success o (suc (suc zero)) enough = absurd (omega arith)
  run-success o (suc (suc (suc zero))) enough = absurd (omega arith)

pub seen-some :
    {w : Wire} {S : Type 0} (x : Option (Loop w S)) (d : GoalDriver) (s : S) (log : List (Event w))
    → seen x ≡ some (d, s, log)
    → (l : Loop w S) × (x ≡ some l) × (l.driver ≡ d) × (l.log ≡ log)
seen-some none d s log e = absurd (ground arith)
seen-some (some l) d s log e = (l, refl, ap (λ x. x.0) (some_inj.0 e), ap (λ x. x.2) (some_inj.0 e))
