-- ===== src/Kernel/Mesh.antt =====
-- `MeshInference` (kernel/src/net/mesh.rs): a goal step is one turn over the gateway's wire. The
-- session is an interface, `Channel`, with the two operations that the inference calls; serde's
-- reading and printing of frames is a parameter. `next` goes by fuel, one for each call of
-- `try_next_text`.
pub mod Turn
pub mod OverSession
pub mod Engine
pub mod Flow
use apex_os_rv.Prelude.{
  ℕ, zero, suc, ◌+◌, Bool, true, false, Option, none, some, List, [], ◌∷◌, ◌++◌, Text, unwrap_or,
  if◌then◌else◌, Outcome, returned, out_of_fuel, and_then,
}
use apex_os_rv.Protocol.Wire.{Wire, SessionId}
use apex_os_rv.Protocol.Event.{Event, agent_text, turn_complete}
use apex_os_rv.Goal.Driver.{TickContext, TurnResult, Verdict, completed, pending}
use apex_os_rv.Goal.Directive.{step_directive, parse_goal_step}
use apex_os_rv.Gateway.{ClientFrame}

-- `Mesh`, as far as the inference uses it.
pub record Channel (M : Type 0) : Type 0 where
  pub send_text : Text → M → Outcome M
  pub try_next_text : M → Outcome (Option Text × M)

-- `serde_json` at the frames that the inference sends and receives.
pub record Serde (w : Wire) : Type 0 where
  pub to_string : ClientFrame → Text
  pub from_str : Text → Option (Event w)

pub record MeshInference (M : Type 0) : Type 0 where
  pub mesh : M
  pub reply : Text
  pub in_flight : Bool

-- `MeshInference::new`
unfoldable pub new : {M : Type 0} → M → MeshInference M
new mesh = record { mesh = mesh; reply = []; in_flight = false }

-- `MeshInference::finish`
unfoldable pub finish : {M : Type 0} → MeshInference M → M
finish inf = inf.mesh

module _ {w : Wire} {M : Type 0} (serde : Serde w) (channel : Channel M) where
  -- The match on a received frame; a result ends the call of `next`.
  unfoldable pub on_frame : Option (Event w) → MeshInference M → Option TurnResult × MeshInference M
  on_frame (some (agent_text session delta)) inf = (none, record inf { reply = inf.reply ++ delta })
  on_frame (some (turn_complete session)) inf = (
    some (completed (unwrap_or (parse_goal_step inf.reply) (Verdict.continue none))),
    record inf { in_flight = false },
  )
  on_frame _ inf = (none, inf)

  -- A round of the `while let` loop, at what `try_next_text` returned. Without a text the loop ends.
  unfoldable pub on_text : Option Text × M → MeshInference M → Option TurnResult × MeshInference M
  on_text (none, m) inf = (some pending, record inf { mesh = m })
  on_text (some text, m) inf = on_frame (serde.from_str text) (record inf { mesh = m })

  -- The end of a round; `rest` is what the rounds after it come to.
  abbrev pub settle :
      Option TurnResult × MeshInference M
      → Outcome (TurnResult × MeshInference M)
      → Outcome (TurnResult × MeshInference M)
  settle (some r, inf) rest = returned (r, inf)
  settle (none, inf) rest = rest

  unfoldable pub receive : ℕ → MeshInference M → Outcome (TurnResult × MeshInference M)
  receive zero inf = out_of_fuel
  receive (suc fuel) inf =
      and_then (channel.try_next_text inf.mesh)
        (λ got. let handled = on_text got inf in settle handled (receive fuel handled.1))

  unfoldable pub next : ℕ → MeshInference M → TickContext → Outcome (TurnResult × MeshInference M)
  next fuel inf ctx =
      let turn = receive fuel inf in
      let json = serde.to_string (ClientFrame.user_prompt (step_directive ctx)) in
      if inf.in_flight
      then turn
      else and_then (channel.send_text json inf.mesh)
          (λ mesh. returned (pending, record { mesh = mesh; reply = []; in_flight = true }))
