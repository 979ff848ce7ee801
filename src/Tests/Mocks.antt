-- ===== src/Tests/Mocks.antt =====
-- The mock at the other end, with frames that wait, and the compiled-in script as a dialogue.
use apex_os_rv.Prelude.{
  ℕ, zero, suc, ◌%◌, ◌≡◌, refl, true, false, Option, none, some, [], ◌∷◌, ◌++◌, Text, codes,
  returned, arith,
}
use apex_os_rv.Protocol.Wire.{GoalState}
use apex_os_rv.Protocol.Event.{Event, agent_text, turn_complete, goal_state_changed}
use apex_os_rv.Gateway.{ClientFrame}
use apex_os_rv.Goal.Driver.{start, advance, completed, Verdict}
use apex_os_rv.Goal.Script
use apex_os_rv.Goal.Script.{new, reading, script_success, ScriptedInference}
use apex_os_rv.Kernel.Mesh.{Serde, MeshInference}
use apex_os_rv.Kernel.Watchdog.{drive_goal}
use apex_os_rv.Kernel.Watchdog.Transparent.{seen}
use apex_os_rv.Kernel.Watchdog.Patient.{Dialogue, now, turn, over, drive_goal-Dialogue}
use apex_os_rv.Mockd.{Json}
use apex_os_rv.Mockd.Peer.{Peer, Agrees, mesh_goal}
use apex_os_rv.Mockd.Goal.{done_at_3, four_events, mesh_goal-done}
use apex_os_rv.Mockd.Silent.{mesh_goal-silent}
use apex_os_rv.Tests.Values.{plain, objective, clock, clock-IsClock, timeout}

-- A text whose first code is 0 is a delta, and every other one ends the turn; the session is second.
abbrev read_event : Text → Option (Event plain)
read_event (zero ∷ session ∷ delta) = some (agent_text session delta)
read_event (suc n ∷ session ∷ rest) = some (turn_complete session)
read_event _ = none

abbrev frames : Serde plain
frames = record {
  to_string = λ frame. elim frame [ ClientFrame.user_prompt t ↦ t ];
  from_str = read_event;
}

abbrev json : Json Text
json = record {
  from_str = λ t. some t;
  string_at = λ key v. some (codes "user_prompt");
  has = λ key v. false;
  agent_text = λ session delta. 0 ∷ session ∷ delta;
  turn_complete = λ session. 1 ∷ session ∷ [];
}

json-Agrees : Agrees frames json
json-Agrees = record {
  prompt_read = λ frame. (frames.to_string frame, refl, refl, refl, refl);
  text_read = λ session delta. refl;
  complete_read = λ session. refl;
}

-- Every other frame waits for a call.
abbrev delay : ℕ → ℕ
delay n = n % 2

mesh_goal-done_example :
    (inf : MeshInference Peer) × (mesh_goal frames json false delay 3 clock timeout 15 objective
      ≡ some (done_at_3 objective, returned inf, four_events objective))
    × (inf.mesh ≡ record { serving = some 3; sent = 9; queue = [] })
mesh_goal-done_example =
    mesh_goal-done frames json json-Agrees delay 3 clock timeout 1 1 15 objective (omega arith)
      clock-IsClock (omega arith) (λ k. omega arith) (λ k. omega arith) (omega arith) (omega arith)

mesh_goal-silent_example :
    (inf : MeshInference Peer) × (mesh_goal frames json true delay 2 clock timeout 198 objective
      ≡ some (
        record {
          goal = 1;
          objective = objective;
          state = GoalState.failed;
          step = 1;
          max_steps = 8;
          steer = none;
        },
        returned inf,
        goal_state_changed 1 objective GoalState.acting 1 8 [] false
            ∷ goal_state_changed 1 objective GoalState.failed 1 8
                (codes "step stalled — no completion")
                false
            ∷ [],
      ))
mesh_goal-silent_example =
    mesh_goal-silent frames json json-Agrees delay 2 clock timeout 198 objective (omega arith)
      clock-IsClock (omega arith) (omega arith)

abbrev steer : Text
steer = codes "summarize sensor coverage, then wrap up"

-- The script answers each of its three turns at once.
scripted :
    let d0 = (start plain 1 objective 8).0 in
    let d1 = (advance plain d0 (completed (Verdict.continue none))).0 in
    let d2 = (advance plain d1 (completed (Verdict.continue (some steer)))).0 in
    let d3 = (advance plain d2 (completed Verdict.done)).0 in
    Dialogue plain Script.next 0 3 d0
      (new script_success)
      d3
      (record { steps = script_success; at = 3 })
      ((advance plain d0 (completed (Verdict.continue none))).1
        ++ ((advance plain d1 (completed (Verdict.continue (some steer)))).1
            ++ ((advance plain d2 (completed Verdict.done)).1 ++ [])))
unfolding start advance Script.next reading new
scripted = turn refl (now refl (λ e. cc)) (omega arith) (
    turn refl (now refl (λ e. cc)) (omega arith)
      (turn refl (now refl (λ e. cc)) (omega arith) (over refl)))

drive_goal-Dialogue_example :
    let d0 = (start plain 1 objective 8).0 in
    let d1 = (advance plain d0 (completed (Verdict.continue none))).0 in
    let d2 = (advance plain d1 (completed (Verdict.continue (some steer)))).0 in
    let d3 = (advance plain d2 (completed Verdict.done)).0 in
    seen (drive_goal plain Script.next clock timeout 3 objective (new script_success))
    ≡ some (
      d3,
      record { steps = script_success; at = 3 },
      (start plain 1 objective 8).1
          ++ ((advance plain d0 (completed (Verdict.continue none))).1
              ++ ((advance plain d1 (completed (Verdict.continue (some steer)))).1
                  ++ ((advance plain d2 (completed Verdict.done)).1 ++ []))),
    )
drive_goal-Dialogue_example =
    drive_goal-Dialogue plain Script.next clock timeout clock-IsClock (omega arith) 1
      (λ k. omega arith) 0 objective 3 (new script_success) (omega arith) scripted (omega arith)
