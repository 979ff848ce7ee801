-- ===== src/Goal/Script/Narrate.antt =====
-- What `run` emits for a script (agent-core/src/goal.rs).
use native.Mathlib.Numerals.{add-one}
use apex_os_rv.Prelude.{
  inl, inr, Bool-cases, ℕ, zero, suc, ◌+◌, ◌≤◌, ◌≡◌, refl, Option, none, some, List, [], ◌∷◌, ◌++◌,
  map, Text, drop, append_assoc, ap, ◌∙◌, ◌<◌, All, true, false, ltb, arith, drop-eq-nil,
  drop-eq-cons,
}
use apex_os_rv.Protocol.Wire.{Wire, GoalId, GoalState}
use apex_os_rv.Protocol.Event.{Event, goal_state_changed}
use apex_os_rv.Goal.Lifecycle.{IsValid, start-IsValid}
use apex_os_rv.Goal.Run.{run-suc, run-over}
use apex_os_rv.Goal.Driver.{
  TurnResult, TickContext, Verdict, completed, stalled, tick_context, advance, start, clamp,
  max_steps_ceil, GoalDriver, stalled_detail, budget_detail, run, is_acting,
}
use apex_os_rv.Goal.Script.{
  ScriptStep, ScriptedInference, new, reading, next, Shown, narrate, IsPrompt, continue,
  continue_with, done, blocked, stall,
}

module _ (w : Wire) where
  -- The event of a transition of the goal that `d` drives.
  abbrev pub event_of : GoalDriver → Shown → Event w
  event_of d (state, step, detail) =
      goal_state_changed d.goal d.objective state step d.max_steps detail false

  next-cons :
      (s : ScriptedInference) (c : TickContext) (entry : ScriptStep) (rest : List ScriptStep)
      → drop s.at s.steps ≡ entry ∷ rest
      → IsPrompt entry
      → next s c ≡ (reading (some entry), record s { at = s.at + 1 })
  unfolding next
  next-cons s c entry rest e p = ground (arith, drop-eq-cons s.steps s.at e)

  next-nil :
      (s : ScriptedInference) (c : TickContext)
      → drop s.at s.steps ≡ []
      → next s c ≡ (stalled, record s { at = s.at + 1 })
  unfolding next
  next-nil s c e = ground (arith, drop-eq-nil s.steps s.at e)

  onward-IsValid :
      (d : GoalDriver) (steer : Option Text)
      → IsValid d
      → d.step < d.max_steps
      → IsValid (record d { step = suc d.step; steer = steer })
  onward-IsValid d steer v room = ground arith

  abbrev pub Narrated : ℕ → GoalDriver → ScriptedInference → List (Event w) → List Shown → Type 0
  Narrated fuel d s log shown =
      (d' : GoalDriver) × (s' : ScriptedInference) × (run w next fuel d s log
        ≡ some (d', s', log ++ map (event_of d) shown))
      × (is_acting d'.state ≡ false)

  -- The last turn: its state is not `Acting`.
  last_turn :
      (fuel : ℕ) (d : GoalDriver) (s s' : ScriptedInference) (log : List (Event w)) (r : TurnResult)
      (state : GoalState) (detail : Text)
      → is_acting d.state ≡ true
      → is_acting state ≡ false
      → next s (tick_context d) ≡ (r, s')
      → advance w d r
        ≡ (record d { state = state; steer = none }, event_of d (state, d.step, detail) ∷ [])
      → Narrated (suc fuel) d s log ((state, d.step, detail) ∷ [])
  last_turn fuel d s s' log r state detail a left e f = (
    record d { state = state; steer = none },
    s',
    run-suc w next fuel d _ s s' r log _ a e f ∙ run-over w next fuel _ s' _ left,
    left,
  )

  advance-continue :
      (d : GoalDriver) (steer : Option Text)
      → IsValid d
      → is_acting d.state ≡ true
      → d.step < d.max_steps
      → advance w d (completed (Verdict.continue steer)) ≡ (
        record d { step = suc d.step; steer = steer },
        event_of d (GoalState.acting, suc d.step, []) ∷ [],
      )
  unfolding advance
  advance-continue d steer v a room = ground arith

  -- A turn that goes on, and what the rest of the run narrates.
  onward_turn :
      (fuel : ℕ) (d : GoalDriver) (s s' : ScriptedInference) (log : List (Event w))
      (steer : Option Text) (shown : List Shown)
      → IsValid d
      → is_acting d.state ≡ true
      → d.step < d.max_steps
      → next s (tick_context d) ≡ (completed (Verdict.continue steer), s')
      → Narrated fuel
          (record d { step = suc d.step; steer = steer })
          s'
          (log ++ event_of d (GoalState.acting, suc d.step, []) ∷ [])
          shown
      → Narrated (suc fuel) d s log ((GoalState.acting, suc d.step, []) ∷ shown)
  onward_turn fuel d s s' log steer shown v a room e (d', s'', returns, left) = (
    d',
    s'',
    run-suc w next fuel d _ s s' _ log _ a e (advance-continue d steer v a room)
        ∙ returns
        ∙ ap (λ l. some (d', s'', l)) (append_assoc log _ _),
    left,
  )

  -- An acting driver and a script whose unread part is prompt: `run` emits what the script narrates.
  pub run-narrate :
      (fuel : ℕ) (d : GoalDriver) (s : ScriptedInference) (log : List (Event w))
      → (rest : List ScriptStep) → drop s.at s.steps ≡ rest
      → All IsPrompt rest
      → IsValid d
      → is_acting d.state ≡ true
      → d.max_steps + 1 ≤ fuel + d.step
      → Narrated fuel d s log (narrate d.max_steps d.step rest)
  run-narrate zero d s log rest e ps v a h = absurd (ground arith)
  run-narrate (suc fuel) d s log [] e ps v a h =
      last_turn fuel d s (record s { at = s.at + 1 }) log stalled GoalState.failed stalled_detail a
        refl (next-nil s (tick_context d) e) (unfold advance in rw a)
  run-narrate (suc fuel) d s log (stall ∷ rest) e ps v a h =
      last_turn fuel d s (record s { at = s.at + 1 }) log stalled GoalState.failed stalled_detail a
        refl (unfold reading in next-cons s (tick_context d) stall rest e tt)
        (unfold advance in rw a)
  run-narrate (suc fuel) d s log (done ∷ rest) e ps v a h =
      last_turn fuel d s (record s { at = s.at + 1 }) log (completed Verdict.done) GoalState.done []
        a refl (unfold reading in next-cons s (tick_context d) done rest e tt)
        (unfold advance in rw a)
  run-narrate (suc fuel) d s log (blocked reason ∷ rest) e ps v a h =
      last_turn fuel d s (record s { at = s.at + 1 }) log (completed (Verdict.blocked reason))
        GoalState.blocked reason a refl
        (unfold reading in next-cons s (tick_context d) (blocked reason) rest e tt)
        (unfold advance in rw a)
  run-narrate (suc fuel) d s log (ScriptStep.pending ∷ rest) e ps v a h = absurd ps.0
  run-narrate (suc fuel) d s log (continue ∷ rest) e ps v a h =
      elim (Bool-cases (ltb d.step d.max_steps)) [
        | inl room ↦ rw room (
            onward_turn fuel d s (record s { at = s.at + 1 }) log none _ v a (ground arith)
              (unfold reading in next-cons s (tick_context d) continue rest e tt)
              (run-narrate fuel (record d { step = suc d.step; steer = none })
                (record s { at = s.at + 1 }) _ rest (rw add-one (drop-eq-cons s.steps s.at e).1)
                ps.1 (onward-IsValid d none v (ground arith)) a (omega arith)))
        | inr spent ↦ rw spent (
            last_turn fuel d s (record s { at = s.at + 1 }) log (completed (Verdict.continue none))
              GoalState.done budget_detail a refl
              (unfold reading in next-cons s (tick_context d) continue rest e tt)
              (unfold advance in rw a (ground arith)))
      ]
  run-narrate (suc fuel) d s log (continue_with steer ∷ rest) e ps v a h =
      elim (Bool-cases (ltb d.step d.max_steps)) [
        | inl room ↦ rw room (
            onward_turn fuel d s (record s { at = s.at + 1 }) log (some steer) _ v a (ground arith)
              (unfold reading in next-cons s (tick_context d) (continue_with steer) rest e tt)
              (run-narrate fuel (record d { step = suc d.step; steer = some steer })
                (record s { at = s.at + 1 }) _ rest (rw add-one (drop-eq-cons s.steps s.at e).1)
                ps.1 (onward-IsValid d (some steer) v (ground arith)) a (omega arith)))
        | inr spent ↦ rw spent (
            last_turn fuel d s (record s { at = s.at + 1 }) log
              (completed (Verdict.continue (some steer))) GoalState.done budget_detail a refl
              (unfold reading in next-cons s (tick_context d) (continue_with steer) rest e tt)
              (unfold advance in rw a (ground arith)))
      ]

  -- A goal started with any budget, driven by a script without pending entries: with fuel for the
  -- clamped budget `run` returns a driver that has left `Acting`, and the sink holds the start's
  -- event and then exactly the transitions that the script narrates from step 1.
  pub run-start-narrate :
      (g : GoalId) (o : Text) (n fuel : ℕ) (script : List ScriptStep)
      → All IsPrompt script
      → clamp n 1 max_steps_ceil ≤ fuel
      → let (d, events) = start w g o n in
        Narrated fuel d (new script) events (narrate (clamp n 1 max_steps_ceil) 1 script)
  unfolding start new
  run-start-narrate g o n fuel script ps h =
      run-narrate fuel (start w g o n).0 (new script) (start w g o n).1 script refl ps
        (start-IsValid w g o n) refl (omega arith)
