-- ===== src/Kernel/Session.antt =====
-- Receiving over the mesh session (`Mesh::try_next_text`, kernel/src/net/mesh.rs). The WebSocket
-- library's calls are parameters, and the operations of the session below them an interface, which
-- Kernel.Link fills. The `while` loop goes by fuel. A panic ends the kernel.
pub mod Receive
pub mod Fragments
pub mod Client
use apex_os_rv.Prelude.{
  ℕ, zero, suc, Bool, true, false, Option, none, some, List, [], ◌∷◌, ◌++◌, drop, Text, Outcome,
  returned, panicked, out_of_fuel, and_then, expect, if◌then◌else◌,
}
use apex_os_rv.Str.Trim.{is_empty}

pub data MessageType : Type 0 where
  text ping close_must_reply close_completed other : MessageType

-- `WebSocketReadResult`, with the payload `&frame[..len_to]`.
pub record Frame : Type 0 where
  pub len_from : ℕ
  pub message_type : MessageType
  pub end_of_message : Bool
  pub payload : List ℕ

-- What `read` returns; `ReadFrameIncomplete` stands apart from the other errors.
pub data Decoded (Ws : Type 0) : Type 0 where
  decoded : Frame → Ws → Decoded Ws
  frame_incomplete : Decoded Ws
  failed : Decoded Ws

-- `read`, `write` for a text and for a pong, `close`, and the conversions between a `str` and its
-- bytes; `none` is an error.
pub record WebSocket (Ws : Type 0) : Type 0 where
  pub read : Ws → List ℕ → Decoded Ws
  pub write_text : Ws → List ℕ → Option (List ℕ × Ws)
  pub write_pong : Ws → List ℕ → Option (List ℕ × Ws)
  pub write_close : Ws → Option (List ℕ × Ws)
  pub as_bytes : Text → List ℕ
  pub from_utf8 : List ℕ → Option Text

-- `pump`, which returns the bytes that it appends to `rx_raw`, `blocking_send_raw`, `idle_tick` up to a
-- deadline, and what `close_clean` asks of the socket and of the timer besides.
pub record Stream (Link : Type 0) : Type 0 where
  pub pump : Link → Outcome (List ℕ × Link)
  pub blocking_send_raw : List ℕ → Link → Outcome Link
  pub idle_tick : ℕ → Link → Outcome Link
  pub mtime : Link → ℕ × Link
  pub nap : Link → Link
  pub poll : Link → Link
  pub close : Link → Link

pub record Mesh (Ws Link : Type 0) : Type 0 where
  pub link : Link
  pub ws : Ws
  pub rx_raw : List ℕ
  pub msg_partial : List ℕ
  pub session_id : ℕ

-- How a round of the loop ends: the call returns, or the loop goes on.
pub data Round (M : Type 0) : Type 0 where
  returns : Option Text → M → Round M
  goes_on : M → Round M

module _ {Ws Link : Type 0} (web : WebSocket Ws) (stream : Stream Link) where
  -- The match on the message type; the bytes of the frame are drained already.
  unfoldable pub on_message : MessageType → Frame → Mesh Ws Link → Outcome (Round (Mesh Ws Link))
  on_message text r mesh =
      let partial = mesh.msg_partial ++ r.payload in
      if r.end_of_message
      then and_then (expect (web.from_utf8 partial))
          (λ t. returned (returns (some t) (record mesh { msg_partial = [] })))
      else returned (goes_on (record mesh { msg_partial = partial }))
  on_message ping r mesh = and_then (expect (web.write_pong mesh.ws r.payload)) (λ pong.
      and_then (stream.blocking_send_raw pong.0 mesh.link)
        (λ link. returned (goes_on (record mesh { ws = pong.1; link = link }))))
  on_message close_must_reply r mesh = panicked
  on_message close_completed r mesh = panicked
  on_message other r mesh = returned (goes_on mesh)

  unfoldable pub on_read : Decoded Ws → Mesh Ws Link → Outcome (Round (Mesh Ws Link))
  on_read (decoded r ws) mesh =
      on_message r.message_type r (record mesh { ws = ws; rx_raw = drop r.len_from mesh.rx_raw })
  on_read frame_incomplete mesh = returned (returns none mesh)
  on_read failed mesh = panicked

  -- The body of the loop, with its condition.
  unfoldable pub receive_round : Mesh Ws Link → Outcome (Round (Mesh Ws Link))
  receive_round mesh =
      if is_empty mesh.rx_raw
      then returned (returns none mesh)
      else on_read (web.read mesh.ws mesh.rx_raw) mesh

  -- The end of a round; `rest` is what the rounds after it come to.
  abbrev pub conclude :
      Round (Mesh Ws Link)
      → Outcome (Option Text × Mesh Ws Link)
      → Outcome (Option Text × Mesh Ws Link)
  conclude (returns t mesh) rest = returned (t, mesh)
  conclude (goes_on mesh) rest = rest

  abbrev pub left_by : Round (Mesh Ws Link) → Mesh Ws Link → Mesh Ws Link
  left_by (goes_on mesh) old = mesh
  left_by (returns t mesh) old = old

  unfoldable pub receive_loop : ℕ → Mesh Ws Link → Outcome (Option Text × Mesh Ws Link)
  receive_loop zero mesh = and_then (receive_round mesh) (λ r. conclude r out_of_fuel)
  receive_loop (suc fuel) mesh =
      and_then (receive_round mesh) (λ r. conclude r (receive_loop fuel (left_by r mesh)))

  unfoldable pub try_next_text : ℕ → Mesh Ws Link → Outcome (Option Text × Mesh Ws Link)
  try_next_text fuel mesh =
      and_then (stream.pump mesh.link)
        (λ got. receive_loop fuel (record mesh { link = got.1; rx_raw = mesh.rx_raw ++ got.0 }))
