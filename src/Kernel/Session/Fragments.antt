-- ===== src/Kernel/Session/Fragments.antt =====
-- A message is put together from its fragments (`Mesh::try_next_text`, kernel/src/net/mesh.rs).
use apex_os_rv.Prelude.{
  ℕ, zero, suc, ◌≤◌, ◌≡◌, refl, ap, sym, ◌∙◌, true, false, Option, some, List, [], ◌++◌,
  append_assoc, append-nil, drop, Text, arith, Outcome, returned,
}
use apex_os_rv.Str.Trim.{is_empty}
use apex_os_rv.Kernel.Session.{
  MessageType, text, ping, other, Frame, decoded, WebSocket, Stream, Mesh, returns, goes_on,
  on_message, on_read, receive_round, receive_loop,
}

module _ {Ws Link : Type 0} (web : WebSocket Ws) (stream : Stream Link) where
  -- The next frame of a session, which the library reads off the bytes that wait.
  pub record Reads (m : Mesh Ws Link) (type : MessageType) (r : Frame) (ws : Ws) : Type 0 where
    pub waits : is_empty m.rx_raw ≡ false
    pub read : web.read m.ws m.rx_raw ≡ decoded r ws
    pub typed : r.message_type ≡ type

  -- `Hears n m payload m'`: in `n` rounds from `m` to `m'`, fragments with this payload in all arrive,
  -- none of which ends its message; pings between them are answered, and other frames passed over.
  pub data Hears : ℕ → Mesh Ws Link → List ℕ → Mesh Ws Link → Type 0 where
    nothing : {m : Mesh Ws Link} → Hears 0 m [] m
    fragment :
        {n : ℕ} {m m' : Mesh Ws Link} {payload : List ℕ} {r : Frame} {ws : Ws}
        → Reads m text r ws
        → r.end_of_message ≡ false
        → Hears n
            (record m {
              ws = ws;
              rx_raw = drop r.len_from m.rx_raw;
              msg_partial = m.msg_partial ++ r.payload;
            })
            payload
            m'
        → Hears (suc n) m (r.payload ++ payload) m'
    answered :
        {n : ℕ} {m m' : Mesh Ws Link} {payload reply : List ℕ} {r : Frame} {ws ws' : Ws}
        {link : Link}
        → Reads m ping r ws
        → web.write_pong ws r.payload ≡ some (reply, ws')
        → stream.blocking_send_raw reply m.link ≡ returned link
        → Hears n (record m { ws = ws'; rx_raw = drop r.len_from m.rx_raw; link = link }) payload m'
        → Hears (suc n) m payload m'
    passed_over :
        {n : ℕ} {m m' : Mesh Ws Link} {payload : List ℕ} {r : Frame} {ws : Ws}
        → Reads m other r ws
        → Hears n (record m { ws = ws; rx_raw = drop r.len_from m.rx_raw }) payload m'
        → Hears (suc n) m payload m'

  round-Reads :
      {type : MessageType} {r : Frame} {ws : Ws} (m : Mesh Ws Link)
      → Reads m type r ws
      → receive_round web stream m
        ≡ on_message web stream type r (record m { ws = ws; rx_raw = drop r.len_from m.rx_raw })
  unfolding receive_round on_read
  round-Reads m h = rw (h.waits, h.read) (rw h.typed refl)

  loop-goes_on :
      (fuel : ℕ) (m m' : Mesh Ws Link)
      → receive_round web stream m ≡ returned (goes_on m')
      → receive_loop web stream (suc fuel) m ≡ receive_loop web stream fuel m'
  unfolding receive_loop
  loop-goes_on fuel m m' e = rw e refl

  loop-returns :
      (fuel : ℕ) (m m' : Mesh Ws Link) (t : Option Text)
      → receive_round web stream m ≡ returned (returns t m')
      → receive_loop web stream fuel m ≡ returned (t, m')
  unfolding receive_loop
  loop-returns zero m m' t e = rw e refl
  loop-returns (suc fuel) m m' t e = rw e refl

  Hears-partial :
      {n : ℕ} {m m' : Mesh Ws Link} {payload : List ℕ}
      → Hears n m payload m'
      → m'.msg_partial ≡ m.msg_partial ++ payload
  Hears-partial {m = m} nothing = sym (append-nil m.msg_partial)
  Hears-partial (fragment {m = m} {payload = payload} {r = r} h e more) =
      Hears-partial more ∙ append_assoc m.msg_partial r.payload payload
  Hears-partial (answered h e f more) = Hears-partial more
  Hears-partial (passed_over h more) = Hears-partial more

  last_round :
      (m : Mesh Ws Link) (r : Frame) (ws : Ws) (t : Text)
      → Reads m text r ws
      → r.end_of_message ≡ true
      → web.from_utf8 (m.msg_partial ++ r.payload) ≡ some t
      → receive_round web stream m
        ≡ returned (
            returns
              (some t)
              (record m { ws = ws; rx_raw = drop r.len_from m.rx_raw; msg_partial = [] }))
  unfolding on_message
  last_round m r ws t h e utf8 = round-Reads m h ∙ rw (e, utf8) refl

  round-fragment :
      (m : Mesh Ws Link) (r : Frame) (ws : Ws)
      → Reads m text r ws
      → r.end_of_message ≡ false
      → receive_round web stream m
        ≡ returned (
            goes_on (record m {
              ws = ws;
              rx_raw = drop r.len_from m.rx_raw;
              msg_partial = m.msg_partial ++ r.payload;
            }))
  unfolding on_message
  round-fragment m r ws h e = round-Reads m h ∙ rw e refl

  round-answered :
      (m : Mesh Ws Link) (r : Frame) (ws ws' : Ws) (reply : List ℕ) (link : Link)
      → Reads m ping r ws
      → web.write_pong ws r.payload ≡ some (reply, ws')
      → stream.blocking_send_raw reply m.link ≡ returned link
      → receive_round web stream m
        ≡ returned (goes_on (record m { ws = ws'; rx_raw = drop r.len_from m.rx_raw; link = link }))
  unfolding on_message
  round-answered m r ws ws' reply link h e f = round-Reads m h ∙ rw e (rw f refl)

  round-passed_over :
      (m : Mesh Ws Link) (r : Frame) (ws : Ws)
      → Reads m other r ws
      → receive_round web stream m
        ≡ returned (goes_on (record m { ws = ws; rx_raw = drop r.len_from m.rx_raw }))
  unfolding on_message
  round-passed_over m r ws h = round-Reads m h

  -- A loop that comes to `o` at the end of what was heard comes to it from the start.
  loop-Hears :
      (fuel : ℕ) {n : ℕ} {m m' : Mesh Ws Link} {payload : List ℕ}
      (o : Outcome (Option Text × Mesh Ws Link))
      → Hears n m payload m'
      → ((rest : ℕ) → receive_loop web stream rest m' ≡ o)
      → n ≤ fuel
      → receive_loop web stream fuel m ≡ o
  loop-Hears fuel o nothing end enough = end fuel
  loop-Hears zero o (fragment h e more) end enough = absurd (omega arith)
  loop-Hears zero o (answered h e f more) end enough = absurd (omega arith)
  loop-Hears zero o (passed_over h more) end enough = absurd (omega arith)
  loop-Hears (suc fuel) o (fragment {m = m} {r = r} {ws = ws} h e more) end enough =
      loop-goes_on fuel m _ (round-fragment m r ws h e) ∙ loop-Hears fuel o more end (omega arith)
  loop-Hears (suc fuel) o
        (answered {m = m} {reply = reply} {r = r} {ws = ws} {ws' = ws'} {link = link} h e f more)
        end enough =
      loop-goes_on fuel m _ (round-answered m r ws ws' reply link h e f)
      ∙ loop-Hears fuel o more end (omega arith)
  loop-Hears (suc fuel) o (passed_over {m = m} {r = r} {ws = ws} h more) end enough =
      loop-goes_on fuel m _ (round-passed_over m r ws h) ∙ loop-Hears fuel o more end (omega arith)

  -- When fragments arrive of which none ends its message, with pings between them whose answers
  -- can be sent, and then the fragment that ends it, and their bytes behind the partial message
  -- are UTF-8: the loop returns the text of these bytes, and no partial message is left. One
  -- round for each frame before the last is fuel enough.
  pub receive_loop-message :
      (fuel : ℕ) {n : ℕ} {m m' : Mesh Ws Link} {payload : List ℕ} {r : Frame} {ws : Ws} {t : Text}
      → Hears n m payload m'
      → Reads m' text r ws
      → r.end_of_message ≡ true
      → web.from_utf8 ((m.msg_partial ++ payload) ++ r.payload) ≡ some t
      → n ≤ fuel
      → receive_loop web stream fuel m
        ≡ returned
            (some t, record m' { ws = ws; rx_raw = drop r.len_from m'.rx_raw; msg_partial = [] })
  receive_loop-message fuel {m = m} {m' = m'} {payload = payload} {r = r} {ws = ws} {t = t} heard h
        e utf8 enough =
      let utf8' = ap (λ b. web.from_utf8 (b ++ r.payload)) (Hears-partial heard) ∙ utf8 in
      loop-Hears fuel _ heard
        (λ rest. loop-returns rest m' _ (some t) (last_round m' r ws t h e utf8')) enough
