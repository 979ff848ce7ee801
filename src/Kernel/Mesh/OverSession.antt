-- ===== src/Kernel/Mesh/OverSession.antt =====
-- The session is the inference's channel: `MeshInference` over `Mesh` (kernel/src/net/mesh.rs).
use apex_os_rv.Prelude.{
  ℕ, ◌≤◌, ◌<◌, ◌≡◌, ap, append-nil, ◌∙◌, true, false, none, some, List, [], ◌++◌, drop, Text,
  unwrap_or, returned,
}
use apex_os_rv.Protocol.Wire.{Wire}
use apex_os_rv.Goal.Driver.{TickContext, Verdict, completed}
use apex_os_rv.Goal.Directive.{parse_goal_step}
use apex_os_rv.Kernel.Mesh.{Channel, Serde, MeshInference, next}
use apex_os_rv.Kernel.Mesh.Turn.{is_end, Arrives, next-completed}
use apex_os_rv.Kernel.Session.{text, Frame, WebSocket, Stream, Mesh, try_next_text}
use apex_os_rv.Kernel.Session.Fragments.{Reads, Hears, receive_loop-message}
use apex_os_rv.Kernel.Session.Client.{send_text}

-- `rx_fuel` is the fuel that a call of `try_next_text` has.
abbrev pub session :
    {Ws Link : Type 0} → WebSocket Ws → Stream Link → (Mesh Ws Link → ℕ) → Channel (Mesh Ws Link)
session web stream rx_fuel = record {
  send_text = send_text web stream;
  try_next_text = λ mesh. try_next_text web stream (rx_fuel mesh) mesh;
}

module _ {w : Wire} {Ws Link : Type 0} (serde : Serde w) (web : WebSocket Ws) (stream : Stream Link)
    (rx_fuel : Mesh Ws Link → ℕ) where
  -- The session behind a pump.
  abbrev pub pumped : Mesh Ws Link → List ℕ → Link → Mesh Ws Link
  pumped mesh bytes link = record mesh { link = link; rx_raw = mesh.rx_raw ++ bytes }

  -- The session behind the last fragment of a message.
  abbrev pub finished : Mesh Ws Link → Frame → Ws → Mesh Ws Link
  finished mesh r ws = record mesh {
    ws = ws;
    rx_raw = drop r.len_from mesh.rx_raw;
    msg_partial = [];
  }

  try_next_text-message :
      (fuel : ℕ) (mesh m' : Mesh Ws Link) (bytes payload : List ℕ) (link : Link) (n : ℕ) (r : Frame)
      (ws : Ws) (t : Text)
      → stream.pump mesh.link ≡ returned (bytes, link)
      → Hears web stream n (pumped mesh bytes link) payload m'
      → Reads web stream m' text r ws
      → r.end_of_message ≡ true
      → web.from_utf8 ((mesh.msg_partial ++ payload) ++ r.payload) ≡ some t
      → n ≤ fuel
      → try_next_text web stream fuel mesh ≡ returned (some t, finished m' r ws)
  unfolding try_next_text
  try_next_text-message fuel mesh m' bytes payload link n r ws t e heard last ends utf8 enough =
      rw e (receive_loop-message web stream fuel heard last ends utf8 enough)

  -- Over the session, with a turn in flight: when the bytes that wait and those that are pumped
  -- in hold the fragments of a message, with pings between them whose answers can be sent, the
  -- message is UTF-8 and it ends the turn, the call returns the verdict of the reply that was
  -- heard before, no turn is in flight any more, and no partial message is left. One round for
  -- each frame before the last, and one call of `try_next_text`, are fuel enough.
  pub next-message :
      (fuel : ℕ) (inf : MeshInference (Mesh Ws Link)) (ctx : TickContext) (m' : Mesh Ws Link)
      (bytes payload : List ℕ) (link : Link) (n : ℕ) (r : Frame) (ws : Ws) (t : Text)
      → inf.in_flight ≡ true
      → stream.pump inf.mesh.link ≡ returned (bytes, link)
      → Hears web stream n (pumped inf.mesh bytes link) payload m'
      → Reads web stream m' text r ws
      → r.end_of_message ≡ true
      → web.from_utf8 ((inf.mesh.msg_partial ++ payload) ++ r.payload) ≡ some t
      → is_end (serde.from_str t) ≡ true
      → n ≤ rx_fuel inf.mesh
      → 0 < fuel
      → next serde (session web stream rx_fuel) fuel inf ctx
        ≡ returned (
          completed (unwrap_or (parse_goal_step inf.reply) (Verdict.continue none)),
          record { mesh = finished m' r ws; reply = inf.reply; in_flight = false },
        )
  next-message fuel inf ctx m' bytes payload link n r ws t on e heard last ends utf8 is_last enough
        some_fuel =
      next-completed serde (session web stream rx_fuel) fuel inf ctx on Arrives.nothing
        (try_next_text-message (rx_fuel inf.mesh) inf.mesh m' bytes payload link n r ws t e heard
          last ends utf8 enough)
        is_last some_fuel
      ∙ ap
          (λ reply. returned (
            completed (unwrap_or (parse_goal_step reply) (Verdict.continue none)),
            record { mesh = finished m' r ws; reply = reply; in_flight = false },
          ))
          (append-nil inf.reply)
