-- ===== src/Goal/Run.antt =====
-- `poll` and `run` of the driver (agent-core/src/goal.rs).
use apex_os_rv.Prelude.{
  ℕ, zero, suc, ◌+◌, ◌-◌, ◌≤◌, ◌<◌, ◌≡◌, ◌≢◌, refl, true, false, some, List, [], ◌++◌, Text,
  Bool-cases, inl, inr, if◌then◌else◌, length, arith,
}
use apex_os_rv.Protocol.Wire.{Wire, GoalId}
use apex_os_rv.Protocol.Event.{Event}
use apex_os_rv.Goal.Driver.{
  GoalDriver, clamp, max_steps_ceil, TurnResult, TickContext, Inference, pending, is_acting, start,
  advance, tick_context, deliver, poll, run,
}
use apex_os_rv.Goal.Lifecycle.{IsValid, Reach, started, advanced}
use apex_os_rv.Goal.Trace.{Moves, advance-Moves, Reach-IsTraced}

module _ (w : Wire) {S : Type 0} (next : Inference S) where
  deliver-advance :
      (d : GoalDriver) (p : TurnResult × S)
      → deliver w next d p ≡ ((advance w d p.0).0, p.1, (advance w d p.0).1)
  unfolding deliver
  deliver-advance d (pending, s) = unfold advance in ground arith
  deliver-advance d (r, s) = refl

  -- A poll of an acting driver is one call of the inference, and `advance` by its answer.
  pub poll-advance :
      (d : GoalDriver) (s : S)
      → is_acting d.state ≡ true
      → let (r, s') = next s (tick_context d) in
        poll w next d s ≡ ((advance w d r).0, s', (advance w d r).1)
  unfolding poll
  poll-advance d s a = rw (a, deliver-advance)

-- How many transitions are left at most.
abbrev pub potential : GoalDriver → ℕ
potential d = if is_acting d.state then d.max_steps + 1 - d.step else 0

module _ (w : Wire) where
  Moves-potential :
      {d d' : GoalDriver} {r : TurnResult} → Moves w d r d' → IsValid d → potential d' < potential d
  Moves-potential m v = ground (arith, m.counted, m.was_acting, m.same_budget)

  pub advance-potential :
      (d : GoalDriver) (r : TurnResult)
      → IsValid d
      → is_acting d.state ≡ true
      → r ≢ pending
      → potential (advance w d r).0 < potential d
  advance-potential d r v a e =
      let (d', m) = advance-Moves w d r v a e in rw m.result (Moves-potential m v)

  -- A driver that has left `Acting` ignores every call of `advance` and of `poll`: nothing
  -- changes, the inference is not called, and nothing is emitted.
  pub over_ignores :
      {S : Type 0} (next : Inference S) (d : GoalDriver) (r : TurnResult) (s : S)
      → is_acting d.state ≡ false
      → (advance w d r ≡ (d, [])) × (poll w next d s ≡ (d, s, []))
  unfolding advance poll
  over_ignores next d r s a = (rw a, rw a)

module _ (w : Wire) {S : Type 0} (next : Inference S) where
  -- One round of `run`.
  pub run-suc :
      (fuel : ℕ) (d d' : GoalDriver) (s s' : S) (r : TurnResult) (log events : List (Event w))
      → is_acting d.state ≡ true
      → next s (tick_context d) ≡ (r, s')
      → advance w d r ≡ (d', events)
      → run w next (suc fuel) d s log ≡ run w next fuel d' s' (log ++ events)
  unfolding run
  run-suc fuel d d' s s' r log events a e f = rw (a, poll-advance w next d s a, e, f)

  pub run-over :
      (fuel : ℕ) (d : GoalDriver) (s : S) (log : List (Event w))
      → is_acting d.state ≡ false
      → run w next fuel d s log ≡ some (d, s, log)
  unfolding run
  run-over zero d s log a = rw a
  run-over (suc fuel) d s log a = rw a

-- An inference whose turns always complete, from the states where `Ends` holds.
pub record Completes {S : Type 0} (next : Inference S) (Ends : S → Type 0) : Type 0 where
  pub ends : (s : S) (c : TickContext) → Ends s → (next s c).0 ≢ pending
  pub keeps : (s : S) (c : TickContext) → Ends s → Ends (next s c).1

module _ (w : Wire) {S : Type 0} {next : Inference S} {Ends : S → Type 0} where
  -- With fuel for the transitions that are left, `run` returns a driver that has left `Acting`.
  pub run_from_Reach :
      {g : GoalId} {o : Text} {n : ℕ} (fuel : ℕ) (d : GoalDriver) (s : S) (log : List (Event w))
      → Completes next Ends
      → Ends s
      → Reach w g o n d log
      → potential d ≤ fuel
      → (d' : GoalDriver) × (s' : S) × (log' : List (Event w)) × (run w next fuel d s log
          ≡ some (d', s', log'))
        × Reach w g o n d' log'
        × (is_acting d'.state ≡ false)
  unfolding run
  run_from_Reach zero d s log c e p h = elim (Bool-cases (is_acting d.state)) [
    | inl a ↦ absurd (ground (arith, (Reach-IsTraced w _ _ _ p).valid))
    | inr a ↦ (d, s, log, rw a, p, a)
  ]
  run_from_Reach (suc fuel) d s log c e p h = elim (Bool-cases (is_acting d.state)) [
    | inl a ↦
        let r = (next s (tick_context d)).0 in
        let v = (Reach-IsTraced w _ _ _ p).valid in
        let falls = advance-potential w d r v a (c.ends s (tick_context d) e) in
        let (d', s', log', returns, reached, left) =
          run_from_Reach fuel (advance w d r).0 (next s (tick_context d)).1
            (log ++ (advance w d r).1) c (c.keeps s (tick_context d) e) (advanced r p)
            (omega arith) in
        (d', s', log', rw (a, poll-advance w next d s a) returns, reached, left)
    | inr a ↦ (d, s, log, rw a, p, a)
  ]

  -- A goal started with any budget, with an inference whose turns always complete: with fuel for
  -- the clamped budget `run` returns a driver that has left `Acting`, at a step within the
  -- budget, and it has emitted one event more than that step counts.
  pub run_terminates :
      (g : GoalId) (o : Text) (n fuel : ℕ) (s : S)
      → Completes next Ends
      → Ends s
      → clamp n 1 max_steps_ceil ≤ fuel
      → let (d, events) = start w g o n in
        (d' : GoalDriver) × (s' : S) × (log : List (Event w)) × (run w next fuel d s events
          ≡ some (d', s', log))
        × (is_acting d'.state ≡ false)
        × (d'.step ≤ clamp n 1 max_steps_ceil)
        × (length log ≡ d'.step + 1)
  run_terminates g o n fuel s c e h =
      let (d', s', log, returns, reached, left) =
        run_from_Reach fuel (start w g o n).0 s (start w g o n).1 c e started
          (unfold start in omega arith) in
      let t = Reach-IsTraced w g o n reached in
      (d', s', log, returns, left, omega (arith, t.same_budget), rw left at t.counted)
