-- ===== src/Kernel/Session/Client.antt =====
-- The rest of the mesh session (`Mesh::send_text`, `next_text`, `establish` and `close_clean`,
-- kernel/src/net/mesh.rs). A call of `try_next_text` has the fuel that `rx_fuel` gives it. `establish`
-- starts behind the set-up of the interface and of the socket; the WebSocket library's upgrade request
-- and its key, and serde's reading of the first frame, are parameters.
use apex_os_rv.Prelude.{
  ℕ, zero, suc, ◌+◌, Bool, true, false, not, ◌*◌, Option, none, some, List, [], ◌++◌, drop, Text,
  ltb, Outcome, returned, panicked, out_of_fuel, and_then, expect, if◌then◌else◌,
}
use apex_os_rv.Str.Trim.{is_empty}
use apex_os_rv.Protocol.Wire.{Wire}
use apex_os_rv.Gateway.{GatewayControl, session_init}
use apex_os_rv.Kernel.Watchdog.{u64, ticks_per_sec}
use apex_os_rv.Kernel.Link.{establish_timeout}
use apex_os_rv.Kernel.Session.{
  MessageType, close_completed, Decoded, decoded, WebSocket, Stream, Mesh, try_next_text,
}

-- What `client_accept` returns: how many bytes the response took, that more are wanted, or an error.
pub data Accepted (Ws : Type 0) : Type 0 where
  accepted : ℕ → Ws → Accepted Ws
  header_incomplete : Accepted Ws
  rejected : Accepted Ws

-- `client_connect`, with the request and its key, `client_accept`, and serde's reading of a control
-- frame.
pub record Handshake (w : Wire) (Ws Key : Type 0) : Type 0 where
  pub client_connect : Ws → Option (List ℕ × Key × Ws)
  pub client_accept : Key → Ws → List ℕ → Accepted Ws
  pub from_str : Text → Option (GatewayControl w)

module _ {Ws Link : Type 0} (web : WebSocket Ws) (stream : Stream Link) where
  unfoldable pub send_text : Text → Mesh Ws Link → Outcome (Mesh Ws Link)
  send_text payload mesh =
      and_then (expect (web.write_text mesh.ws (web.as_bytes payload))) (λ framed.
        and_then (stream.blocking_send_raw framed.0 mesh.link)
          (λ link. returned (record mesh { ws = framed.1; link = link })))

  -- `idle_tick`, on the session.
  abbrev pub idle : ℕ → Mesh Ws Link → Outcome (Mesh Ws Link)
  idle deadline mesh =
      and_then (stream.idle_tick deadline mesh.link)
        (λ link. returned (record mesh { link = link }))

  module _ (rx_fuel : Mesh Ws Link → ℕ) where
    -- The end of a round of `next_text`; without a message the loop idles and goes on.
    abbrev pub or_idle :
        ℕ
        → (Mesh Ws Link → Outcome (Text × Mesh Ws Link))
        → Option Text × Mesh Ws Link
        → Outcome (Text × Mesh Ws Link)
    or_idle deadline rest (some msg, mesh) = returned (msg, mesh)
    or_idle deadline rest (none, mesh) = and_then (idle deadline mesh) rest

    unfoldable pub next_text : ℕ → ℕ → Mesh Ws Link → Outcome (Text × Mesh Ws Link)
    next_text zero deadline mesh = out_of_fuel
    next_text (suc fuel) deadline mesh =
        and_then (try_next_text web stream (rx_fuel mesh) mesh)
          (or_idle deadline (next_text fuel deadline))

    module _ {w : Wire} {Key : Type 0} (shake : Handshake w Ws Key) where
      -- The match on `client_accept`, with the loop's end.
      abbrev pub on_accept :
          ℕ
          → (Mesh Ws Link → Outcome (Mesh Ws Link))
          → Mesh Ws Link
          → Accepted Ws
          → Outcome (Mesh Ws Link)
      on_accept deadline rest mesh (accepted consumed ws) =
          returned (record mesh { ws = ws; rx_raw = drop consumed mesh.rx_raw })
      on_accept deadline rest mesh header_incomplete = and_then (idle deadline mesh) rest
      on_accept deadline rest mesh rejected = panicked

      unfoldable pub accept_loop : ℕ → ℕ → Key → Mesh Ws Link → Outcome (Mesh Ws Link)
      accept_loop zero deadline key mesh = out_of_fuel
      accept_loop (suc fuel) deadline key mesh = and_then (stream.pump mesh.link) (λ got.
          let pumped = record mesh { link = got.1; rx_raw = mesh.rx_raw ++ got.0 } in
          on_accept deadline (accept_loop fuel deadline key) pumped
            (shake.client_accept key pumped.ws pumped.rx_raw))

      abbrev pub with_session : Mesh Ws Link → GatewayControl w → Mesh Ws Link
      with_session mesh (session_init session_id history) = record mesh { session_id = session_id }

      -- From the request on.
      unfoldable pub establish : ℕ → Ws → Link → Outcome (Mesh Ws Link)
      establish fuel ws link = and_then (expect (shake.client_connect ws)) (λ (upgrade, key, ws').
          and_then (stream.blocking_send_raw upgrade link) (λ link'.
            let (now, timed) = stream.mtime link' in
            let deadline = u64 (now + establish_timeout) in
            let mesh : Mesh Ws Link = record {
              link = timed;
              ws = ws';
              rx_raw = [];
              msg_partial = [];
              session_id = 0;
            } in
            and_then (accept_loop fuel deadline key mesh) (λ opened.
              and_then (next_text fuel deadline opened) (λ (first, heard).
                and_then (expect (shake.from_str first))
                  (λ control. returned (with_session heard control))))))

  -- The first half of `close_clean`: an error of the library is passed over.
  abbrev pub send_close : Mesh Ws Link → Option (List ℕ × Ws) → Outcome (Mesh Ws Link)
  send_close mesh none = returned mesh
  send_close mesh (some (frame, ws)) =
      and_then (stream.blocking_send_raw frame mesh.link)
        (λ link. returned (record mesh { ws = ws; link = link }))

  abbrev is_close_completed : MessageType → Bool
  is_close_completed close_completed = true
  is_close_completed _ = false

  abbrev napped : Mesh Ws Link → Mesh Ws Link
  napped mesh = record mesh { link = stream.nap mesh.link }

  -- What a round of the waiting loop leaves, and whether the loop goes on; an error of the library is
  -- passed over like an empty buffer.
  abbrev pub on_close_read : Mesh Ws Link → Decoded Ws → Bool × Mesh Ws Link
  on_close_read mesh (decoded r ws) = (
    not (is_close_completed r.message_type),
    record mesh { ws = ws; rx_raw = drop r.len_from mesh.rx_raw },
  )
  on_close_read mesh _ = (true, napped mesh)

  abbrev pub close_round : Mesh Ws Link → Bool × Mesh Ws Link
  close_round mesh =
      if is_empty mesh.rx_raw
      then (true, napped mesh)
      else on_close_read mesh (web.read mesh.ws mesh.rx_raw)

  abbrev pub unless_over :
      (Mesh Ws Link → Outcome (Mesh Ws Link)) → Bool × Mesh Ws Link → Outcome (Mesh Ws Link)
  unless_over rest (true, mesh) = rest mesh
  unless_over rest (false, mesh) = returned mesh

  unfoldable pub await_close : ℕ → ℕ → Mesh Ws Link → Outcome (Mesh Ws Link)
  await_close zero deadline mesh =
      let (now, timed) = stream.mtime mesh.link in
      if ltb now deadline then out_of_fuel else returned (record mesh { link = timed })
  await_close (suc fuel) deadline mesh =
      let (now, timed) = stream.mtime mesh.link in
      let rest = and_then (stream.pump timed) (λ got.
        unless_over (await_close fuel deadline)
          (close_round (record mesh { link = got.1; rx_raw = mesh.rx_raw ++ got.0 }))) in
      if ltb now deadline then rest else returned (record mesh { link = timed })

  -- The polls behind the close of the socket.
  unfoldable pub flush : ℕ → Link → Link
  flush zero link = link
  flush (suc n) link = flush n (stream.nap (stream.poll link))

  unfoldable pub close_clean : ℕ → Mesh Ws Link → Outcome (Mesh Ws Link)
  close_clean fuel mesh = and_then (send_close mesh (web.write_close mesh.ws)) (λ sent.
      let (now, timed) = stream.mtime sent.link in
      and_then (await_close fuel (u64 (now + 2 * ticks_per_sec)) (record sent { link = timed }))
        (λ over. returned (record over { link = flush 10 (stream.close over.link) })))
