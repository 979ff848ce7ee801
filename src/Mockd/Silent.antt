-- ===== src/Mockd/Silent.antt =====
-- A goal against the mock that falls silent (xtest/src/bin/mockd.rs; kernel/src/net/mesh.rs,
-- `MeshInference`; kernel/src/agent.rs, `drive_goal`).
use apex_os_rv.Prelude.{
  ℕ, zero, suc, ◌+◌, ◌*◌, ◌≤◌, ◌<◌, ◌≡◌, refl, ap, sym, ◌∙◌, subst, true, false, none, some, List,
  [], ◌∷◌, ◌++◌, Text, codes, Outcome, returned, arith,
}
use apex_os_rv.Protocol.Wire.{Wire, GoalState}
use apex_os_rv.Protocol.Event.{Event, goal_state_changed}
use apex_os_rv.Gateway.{ClientFrame}
use apex_os_rv.Goal.Driver.{
  GoalDriver, TickContext, pending, stalled_detail, u32, start, advance, emit_state,
}
use apex_os_rv.Goal.Directive.{step_directive}
use apex_os_rv.Kernel.Mesh.{Serde, MeshInference, new, receive, next}
use apex_os_rv.Kernel.Mesh.Turn.{said_by, is_end, receive-suc, receive-idle, next-in_flight}
use apex_os_rv.Kernel.Watchdog.{Loop}
use apex_os_rv.Kernel.Watchdog.Round.{IsClock}
use apex_os_rv.Kernel.Watchdog.Trail.{drive_goal-Waits}
use apex_os_rv.Kernel.Watchdog.Transparent.{seen}
use apex_os_rv.Mockd.{Json, reply_frames}
use apex_os_rv.Kernel.Mesh.Engine.{ran, engine}
use apex_os_rv.Mockd.Peer.{Peer, opened, wire, Agrees, mesh_goal}
use apex_os_rv.Mockd.Turns.{talking, idle}
use apex_os_rv.Mockd.Reply.{llm_round-prompt}

module _ {w : Wire} {V : Type 0} (serde : Serde w) (json : Json V) (agrees : Agrees serde json)
    (delay : ℕ → ℕ) where
  -- Before the first prompt, and from there on: the one frame is under way, or was heard.
  data IsQuiet : Outcome (MeshInference Peer) → Type 0 where
    before :
        {k n : ℕ} {reply : Text}
        → IsQuiet (returned (idle (record { serving = some k; sent = n; queue = [] }) reply))
    coming :
        (p : Peer) {d : ℕ} {t reply : Text}
        → is_end (serde.from_str t) ≡ false
        → IsQuiet (returned (talking p ((d, t) ∷ []) reply))
    heard : (p : Peer) {reply : Text} → IsQuiet (returned (talking p [] reply))

  IsQuiet-pending :
      (fuel : ℕ) (o o' : Outcome (MeshInference Peer)) (ctx : TickContext)
      → engine serde (wire json true delay) fuel o ctx ≡ (pending, o')
      → IsQuiet o'
      → ((engine serde (wire json true delay) fuel o ctx).0 ≡ pending)
        × IsQuiet (engine serde (wire json true delay) fuel o ctx).1
  IsQuiet-pending fuel o o' ctx e quiet =
      (ap (λ x. x.0) e, subst IsQuiet (sym (ap (λ x. x.1) e)) quiet)

  -- A call with a turn in flight.
  talking-pending :
      (fuel : ℕ) (p : Peer) (queue : List (ℕ × Text)) (reply : Text) (ctx : TickContext)
      (inf : MeshInference Peer)
      → receive serde (wire json true delay) fuel (talking p queue reply) ≡ returned (pending, inf)
      → IsQuiet (returned inf)
      → ((engine serde (wire json true delay) fuel (returned (talking p queue reply)) ctx).0
          ≡ pending)
        × IsQuiet
            (engine serde (wire json true delay) fuel (returned (talking p queue reply)) ctx).1
  talking-pending fuel p queue reply ctx inf e quiet =
      IsQuiet-pending fuel (returned (talking p queue reply)) (returned inf) ctx
        (ap ran
          (next-in_flight serde (wire json true delay) fuel (talking p queue reply) ctx refl ∙ e))
        quiet

  IsQuiet-hangs :
      (fuel : ℕ) (o : Outcome (MeshInference Peer)) (ctx : TickContext)
      → 1 < fuel
      → IsQuiet o
      → ((engine serde (wire json true delay) fuel o ctx).0 ≡ pending)
        × IsQuiet (engine serde (wire json true delay) fuel o ctx).1
  unfolding next reply_frames
  IsQuiet-hangs zero o ctx enough quiet = absurd (omega arith)
  IsQuiet-hangs (suc zero) o ctx enough quiet = absurd (omega arith)
  IsQuiet-hangs (suc (suc fuel)) o ctx enough (before {k = k} {n = n} {reply = reply}) =
      IsQuiet-pending (suc (suc fuel))
        (returned (idle (record { serving = some k; sent = n; queue = [] }) reply))
        (returned (
          talking (record { serving = some (u32 (k + 1)); sent = n + 1; queue = [] })
            ((delay n, json.agent_text 42 (codes "thinking very hard about")) ∷ []) []))
        ctx
        (rw
          (llm_round-prompt serde json agrees true k (ClientFrame.user_prompt (step_directive ctx)))
          refl)
        (coming (record { serving = some (u32 (k + 1)); sent = n + 1; queue = [] })
          (rw agrees.text_read refl))
  IsQuiet-hangs (suc (suc fuel)) o ctx enough (coming p {d = zero} {t = t} {reply = reply} more) =
      talking-pending (suc (suc fuel)) p ((0, t) ∷ []) reply ctx
        (talking p [] (reply ++ said_by (serde.from_str t)))
        (receive-suc serde (wire json true delay) (suc fuel) (talking p ((0, t) ∷ []) reply) _ t
            refl more
          ∙ receive-idle serde (wire json true delay) fuel
              (talking p [] (reply ++ said_by (serde.from_str t))) _ refl)
        (heard p)
  IsQuiet-hangs (suc (suc fuel)) o ctx enough (coming p {d = suc d} {t = t} {reply = reply} more) =
      talking-pending (suc (suc fuel)) p ((suc d, t) ∷ []) reply ctx (talking p ((d, t) ∷ []) reply)
        (receive-idle serde (wire json true delay) (suc fuel) (talking p ((suc d, t) ∷ []) reply) _
          refl)
        (coming p more)
  IsQuiet-hangs (suc (suc fuel)) o ctx enough (heard p {reply = reply}) =
      talking-pending (suc (suc fuel)) p [] reply ctx (talking p [] reply)
        (receive-idle serde (wire json true delay) (suc fuel) (talking p [] reply) _ refl) (heard p)

  IsQuiet-returned :
      (o : Outcome (MeshInference Peer))
      → IsQuiet o
      → (inf : MeshInference Peer) × (o ≡ returned inf)
  IsQuiet-returned o before = (_, refl)
  IsQuiet-returned o (coming p more) = (_, refl)
  IsQuiet-returned o (heard p) = (_, refl)

  seen_by_parts :
      {S : Type 0} (l : Loop w S) {d : GoalDriver} {s : S} {log : List (Event w)}
      → l.driver ≡ d
      → l.engine ≡ s
      → l.log ≡ log
      → seen (some l) ≡ some (d, s, log)
  seen_by_parts l e f g = rw (e, f, g) refl

  -- When serde reads the frames of the two sides, and with a clock that ticks with gaps of less
  -- than half its range, a timeout below half the range, and fuel for nine timeouts, and for two
  -- rounds of a call: the goal against the silent mock fails at step 1 with the detail of a
  -- stall, whatever its one frame waits for, with two events on the sink, and nothing has
  -- panicked.
  pub mesh_goal-silent :
      (fuel : ℕ) (clock : ℕ → ℕ) (timeout rounds : ℕ) (objective : Text)
      → 1 < fuel
      → IsClock clock
      → timeout < 9223372036854775808
      → 9 * (timeout + 2) ≤ rounds
      → (inf : MeshInference Peer) × (mesh_goal serde json true delay fuel clock timeout rounds
            objective
          ≡ some (
            record {
              goal = 1;
              objective = objective;
              state = GoalState.failed;
              step = 1;
              max_steps = 8;
              steer = none;
            },
            returned inf,
            goal_state_changed 1 objective GoalState.acting 1 8 [] false
                ∷ goal_state_changed 1 objective GoalState.failed 1 8 stalled_detail false
                ∷ [],
          ))
  unfolding start advance new emit_state
  mesh_goal-silent fuel clock timeout rounds objective enough c short enough' =
      let (l, returns, d, failed, log, quiet) =
        drive_goal-Waits w (engine serde (wire json true delay) fuel) clock timeout IsQuiet
          (λ s ctx quiet. IsQuiet-hangs fuel s ctx enough quiet) objective rounds
          (returned (new opened)) before c short enough' in
      let (inf, here) = IsQuiet-returned l.engine quiet in
      (inf, ap seen returns ∙ seen_by_parts l d here log)
