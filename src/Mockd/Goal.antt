-- ===== src/Mockd/Goal.antt =====
-- A goal against the `llm` mock (xtest/src/bin/mockd.rs; kernel/src/net/mesh.rs, `MeshInference`;
-- kernel/src/agent.rs, `drive_goal`).
use apex_os_rv.Prelude.{
  ℕ, suc, ◌+◌, ◌*◌, ◌≤◌, ◌<◌, ◌≡◌, refl, false, none, some, List, [], ◌∷◌, Text, returned,
}
use apex_os_rv.Protocol.Wire.{Wire, GoalState}
use apex_os_rv.Protocol.Event.{Event}
use apex_os_rv.Goal.Driver.{
  GoalDriver, Verdict, completed, start, advance, emit_state, tick_context,
}
use apex_os_rv.Kernel.Mesh.{Serde, MeshInference, new}
use apex_os_rv.Kernel.Watchdog.{u64_mod}
use apex_os_rv.Kernel.Watchdog.Round.{IsClock}
use apex_os_rv.Kernel.Watchdog.Patient.{turn, over, drive_goal-Dialogue}
use apex_os_rv.Mockd.{Json}
use apex_os_rv.Kernel.Mesh.Engine.{engine}
use apex_os_rv.Mockd.Peer.{mesh_goal, Peer, opened, wire, Agrees}
use apex_os_rv.Protocol.Event.{goal_state_changed}
use apex_os_rv.Mockd.Reply.{idle_at, idle_at-Answers}

-- The driver that has done the goal at the third step.
abbrev pub done_at_3 : Text → GoalDriver
done_at_3 objective = record {
  goal = 1;
  objective = objective;
  state = GoalState.done;
  step = 3;
  max_steps = 8;
  steer = none;
}

-- Its four events.
abbrev pub four_events : {w : Wire} → Text → List (Event w)
four_events objective =
    goal_state_changed 1 objective GoalState.acting 1 8 [] false
    ∷ goal_state_changed 1 objective GoalState.acting 2 8 [] false
    ∷ goal_state_changed 1 objective GoalState.acting 3 8 [] false
    ∷ goal_state_changed 1 objective GoalState.done 3 8 [] false
    ∷ []

module _ {w : Wire} {V : Type 0} (serde : Serde w) (json : Json V) (agrees : Agrees serde json)
    (delay : ℕ → ℕ) (fuel : ℕ) where
  -- When serde reads the frames of the two sides, no frame of the mock waits for more than `most`
  -- calls, a clock that ticks takes at most `gap` between two readings, and the timeout is a u64
  -- and has room for the polls of a turn: with fuel for the rounds of three turns, and of a call,
  -- the loop returns with the goal done at step 3 and with four events on the sink, nothing has
  -- panicked, and the mock has counted three turns and has nothing under way.
  pub mesh_goal-done :
      (clock : ℕ → ℕ) (timeout gap most rounds : ℕ) (objective : Text)
      → 2 < fuel
      → IsClock clock
      → timeout < u64_mod
      → ((k : ℕ) → clock (suc k) ≤ clock k + gap)
      → ((i : ℕ) → delay i ≤ most)
      → gap + (3 * most + 1) * gap ≤ timeout
      → 3 * suc (3 * most + 1) ≤ rounds
      → (inf : MeshInference Peer) × (mesh_goal serde json false delay fuel clock timeout rounds
            objective
          ≡ some (done_at_3 objective, returned inf, four_events objective))
        × (inf.mesh ≡ record { serving = some 3; sent = 9; queue = [] })
  unfolding start advance new emit_state
  mesh_goal-done clock timeout gap most rounds objective enough c short quick soon fits enough' =
      let ch = wire json false delay in
      let s0 = idle_at serde json agrees delay fuel enough 0 0 [] in
      let d0 = (start w 1 objective 8).0 in
      let d1 = (advance w d0 (completed (Verdict.continue none))).0 in
      let d2 = (advance w d1 (completed (Verdict.continue none))).0 in
      let (m0, le0, a0) =
        idle_at-Answers serde json agrees delay fuel enough most 0 0 [] (tick_context d0) soon in
      let (m1, le1, a1) =
        idle_at-Answers serde json agrees delay fuel enough most 1 3 _ (tick_context d1) soon in
      let (m2, le2, a2) =
        idle_at-Answers serde json agrees delay fuel enough most 2 6 _ (tick_context d2) soon in
      (
        _,
        drive_goal-Dialogue w (engine serde ch fuel) clock timeout c short gap quick (3 * most + 1)
            objective rounds (returned (new opened)) fits
            (turn refl a0 le0 (turn refl a1 le1 (turn refl a2 le2 (over refl)))) enough',
        refl,
      )
