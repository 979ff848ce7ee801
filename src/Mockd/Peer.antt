-- ===== src/Mockd/Peer.antt =====
-- The mock at the other end of the session (xtest/src/bin/mockd.rs, `llm`; kernel/src/net/mesh.rs,
-- `MeshInference`). The network between them is an assumption, and as free as it can be: each frame
-- waits for as many calls of `try_next_text` as it likes.
use apex_os_rv.Prelude.{
  ℕ, zero, suc, ◌+◌, ◌≡◌, Bool, false, codes, Option, none, some, List, [], ◌∷◌, ◌++◌, Text, length,
  Outcome, returned,
}
use apex_os_rv.Protocol.Wire.{Wire}
use apex_os_rv.Protocol.Event.{Event, agent_text, turn_complete}
use apex_os_rv.Gateway.{ClientFrame}
use apex_os_rv.Goal.Driver.{GoalDriver}
use apex_os_rv.Kernel.Mesh.{Channel, Serde, MeshInference, new}
use apex_os_rv.Kernel.Mesh.Engine.{engine}
use apex_os_rv.Kernel.Watchdog.{drive_goal}
use apex_os_rv.Kernel.Watchdog.Transparent.{seen}
use apex_os_rv.Mockd
use apex_os_rv.Mockd.{Json, llm_round}

-- The turns that the mock has counted, or that it is gone; the frames that it has sent; and those under
-- way, each with the calls that it still waits for.
pub record Peer : Type 0 where
  pub serving : Option ℕ
  pub sent : ℕ
  pub queue : List (ℕ × Text)

-- Before the first prompt.
abbrev pub opened : Peer
opened = record { serving = some 0; sent = 0; queue = [] }

module _ {V : Type 0} (json : Json V) (silent : Bool) (delay : ℕ → ℕ) where
  -- The frames with the numbers from `n` on.
  abbrev pub delayed : ℕ → List Text → List (ℕ × Text)
  delayed n [] = []
  delayed n (t ∷ ts) = (delay n, t) ∷ delayed (suc n) ts

  abbrev pub replied : Peer → Outcome (Option ℕ × List Text) → Peer
  replied p (returned (serving, frames)) = record {
    serving = serving;
    sent = p.sent + length frames;
    queue = p.queue ++ delayed p.sent frames;
  }
  replied p _ = record p { serving = none }

  abbrev pub prompt : Text → Peer → Option ℕ → Peer
  prompt frame p none = p
  prompt frame p (some turn) = replied p (llm_round json silent turn (Mockd.text frame))

  abbrev pub receive_from : Peer → List (ℕ × Text) → Option Text × Peer
  receive_from p [] = (none, p)
  receive_from p ((zero, t) ∷ queue) = (some t, record p { queue = queue })
  receive_from p ((suc n, t) ∷ queue) = (none, record p { queue = (n, t) ∷ queue })

  abbrev pub wire : Channel Peer
  wire = record {
    send_text = λ frame p. returned (prompt frame p p.serving);
    try_next_text = λ p. returned (receive_from p p.queue);
  }

-- What serde does with the frames of the two sides: the kernel's prompt passes the mock's assertions,
-- and the kernel reads the mock's frames.
pub record Agrees {w : Wire} {V : Type 0} (serde : Serde w) (json : Json V) : Type 0 where
  pub prompt_read :
      (frame : ClientFrame)
      → (v : V) × (json.from_str (serde.to_string frame) ≡ some v)
        × (json.string_at (codes "type") v ≡ some (codes "user_prompt"))
        × (json.has (codes "session") v ≡ false)
        × (json.has (codes "images") v ≡ false)
  pub text_read :
      (session : ℕ) (delta : Text)
      → serde.from_str (json.agent_text session delta) ≡ some (agent_text session delta)
  pub complete_read :
      (session : ℕ) → serde.from_str (json.turn_complete session) ≡ some (turn_complete session)

-- The goal over the mesh: the loop of the kernel, with the mock at the other end.
abbrev pub mesh_goal :
    {w : Wire} {V : Type 0}
    → Serde w
    → Json V
    → Bool
    → (ℕ → ℕ)
    → ℕ
    → (ℕ → ℕ)
    → ℕ
    → ℕ
    → Text
    → Option (GoalDriver × Outcome (MeshInference Peer) × List (Event w))
mesh_goal {w = w} serde json silent delay fuel clock timeout rounds objective = seen (
    drive_goal w (engine serde (wire json silent delay) fuel) clock timeout rounds objective
      (returned (new opened)))
