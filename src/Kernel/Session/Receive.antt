-- ===== src/Kernel/Session/Receive.antt =====
-- The receiving loop, and how many bytes its rounds use up (`Mesh::try_next_text`,
-- kernel/src/net/mesh.rs).
use apex_os_rv.Prelude.{
  Outcome, returned, panicked, out_of_fuel, and_then, and_then_total, expect, ℕ, zero, suc, ◌+◌,
  ◌≤◌, ◌<◌, ◌≡◌, ◌≢◌, refl, inl, inr, false, Option, none, some, List, [], ◌∷◌, ◌++◌, drop, length,
  length-append, Text, arith, Bool-cases,
}
use apex_os_rv.Str.Trim.{is_empty}
use apex_os_rv.Kernel.Session.{
  MessageType, text, ping, close_must_reply, close_completed, other, Frame, Decoded, decoded,
  frame_incomplete, failed, WebSocket, Stream, Mesh, Round, returns, goes_on, on_message, on_read,
  receive_round, conclude, left_by, receive_loop, try_next_text,
}

length-drop_le : {A : Type 0} (n : ℕ) (xs : List A) → length (drop n xs) ≤ length xs
length-drop_le zero xs = omega arith
length-drop_le (suc n) [] = omega arith
length-drop_le (suc n) (x ∷ xs) = omega (arith, length-drop_le n xs)

length-drop : {A : Type 0} (n : ℕ) (xs : List A) → 1 ≤ n → xs ≢ [] → length (drop n xs) < length xs
length-drop zero xs h full = absurd (omega arith)
length-drop (suc n) [] h full = absurd (full refl)
length-drop (suc n) (x ∷ xs) h full = omega (arith, length-drop_le n xs)

is_empty-full : (xs : List ℕ) → is_empty xs ≡ false → xs ≢ []
is_empty-full [] h = absurd (ground arith)
is_empty-full (x ∷ xs) h = λ e. cc

-- The operations of a stream do not run out of fuel.
pub record IsTotal {Link : Type 0} (stream : Stream Link) : Type 0 where
  pub pump_total : (l : Link) → stream.pump l ≢ out_of_fuel
  pub send_total : (bytes : List ℕ) (l : Link) → stream.blocking_send_raw bytes l ≢ out_of_fuel
  pub idle_total : (deadline : ℕ) (l : Link) → stream.idle_tick deadline l ≢ out_of_fuel

-- A frame that the library read used up a byte at least: its header.
abbrev pub ConsumesHeader : {Ws : Type 0} → WebSocket Ws → Type 0
ConsumesHeader {Ws} web =
    (ws ws' : Ws) (bytes : List ℕ) (r : Frame) → web.read ws bytes ≡ decoded r ws' → 1 ≤ r.len_from

module _ {Ws Link : Type 0} (web : WebSocket Ws) (stream : Stream Link) where
  -- What a round does: it ends, and if the loop goes on then with fewer bytes that wait.
  abbrev Shrinks : ℕ → Outcome (Round (Mesh Ws Link)) → Type 0
  Shrinks n (returned (goes_on mesh)) = length mesh.rx_raw < n
  Shrinks n out_of_fuel = ⊥
  Shrinks n _ = Unit {0}

  whole-Shrinks :
      (n : ℕ) (o : Option Text) (mesh : Mesh Ws Link)
      → Shrinks n (and_then (expect o) (λ t. returned (returns (some t) mesh)))
  whole-Shrinks n none mesh = tt
  whole-Shrinks n (some t) mesh = tt

  sent-Shrinks :
      (n : ℕ) (mesh : Mesh Ws Link) (ws : Ws) (o : Outcome Link)
      → o ≢ out_of_fuel
      → length mesh.rx_raw < n
      → Shrinks n (and_then o (λ link. returned (goes_on (record mesh { ws = ws; link = link }))))
  sent-Shrinks n mesh ws (returned link) total h = h
  sent-Shrinks n mesh ws panicked total h = tt
  sent-Shrinks n mesh ws out_of_fuel total h = absurd (total refl)

  pong-Shrinks :
      (n : ℕ) (mesh : Mesh Ws Link) (o : Option (List ℕ × Ws))
      → IsTotal stream
      → length mesh.rx_raw < n
      → Shrinks n (
          and_then (expect o) (λ pong.
            and_then
              (stream.blocking_send_raw pong.0 mesh.link)
              (λ link. returned (goes_on (record mesh { ws = pong.1; link = link })))))
  pong-Shrinks n mesh none total h = tt
  pong-Shrinks n mesh (some (reply, ws)) total h =
      sent-Shrinks n mesh ws (stream.blocking_send_raw reply mesh.link)
        (total.send_total reply mesh.link) h

  on_message-Shrinks :
      (n : ℕ) (type : MessageType) (r : Frame) (mesh : Mesh Ws Link)
      → IsTotal stream
      → length mesh.rx_raw < n
      → Shrinks n (on_message web stream type r mesh)
  unfolding on_message
  on_message-Shrinks n text r mesh total h = elim (Bool-cases r.end_of_message) [
    | inl e ↦ rw e (
        whole-Shrinks n (web.from_utf8 (mesh.msg_partial ++ r.payload))
          (record mesh { msg_partial = [] }))
    | inr e ↦ rw e h
  ]
  on_message-Shrinks n ping r mesh total h =
      pong-Shrinks n mesh (web.write_pong mesh.ws r.payload) total h
  on_message-Shrinks n close_must_reply r mesh total h = tt
  on_message-Shrinks n close_completed r mesh total h = tt
  on_message-Shrinks n other r mesh total h = h

  on_read-Shrinks :
      (d : Decoded Ws) (mesh : Mesh Ws Link)
      → web.read mesh.ws mesh.rx_raw ≡ d
      → mesh.rx_raw ≢ []
      → ConsumesHeader web
      → IsTotal stream
      → Shrinks (length mesh.rx_raw) (on_read web stream d mesh)
  unfolding on_read
  on_read-Shrinks (decoded r ws) mesh e full c total =
      on_message-Shrinks (length mesh.rx_raw) r.message_type r
        (record mesh { ws = ws; rx_raw = drop r.len_from mesh.rx_raw }) total
        (length-drop r.len_from mesh.rx_raw (c mesh.ws ws mesh.rx_raw r e) full)
  on_read-Shrinks frame_incomplete mesh e full c total = tt
  on_read-Shrinks failed mesh e full c total = tt

  module _ (c : ConsumesHeader web) (total : IsTotal stream) where
    receive_round-Shrinks :
        (mesh : Mesh Ws Link) → Shrinks (length mesh.rx_raw) (receive_round web stream mesh)
    unfolding receive_round
    receive_round-Shrinks mesh = elim (Bool-cases (is_empty mesh.rx_raw)) [
      | inl e ↦ rw e tt
      | inr e ↦ rw e (
          on_read-Shrinks (web.read mesh.ws mesh.rx_raw) mesh refl (is_empty-full mesh.rx_raw e) c
            total)
    ]

    -- A round ends the loop, or leaves fewer bytes to a loop that ends.
    conclude_total :
        (n : ℕ) (o : Outcome (Round (Mesh Ws Link))) (old : Mesh Ws Link)
        (rest : Mesh Ws Link → Outcome (Option Text × Mesh Ws Link))
        → Shrinks n o
        → ((m : Mesh Ws Link) → length m.rx_raw < n → rest m ≢ out_of_fuel)
        → and_then o (λ r. conclude web stream r (rest (left_by web stream r old))) ≢ out_of_fuel
    conclude_total n (returned (returns t m)) old rest s h = λ e. cc
    conclude_total n (returned (goes_on m)) old rest s h = h m s
    conclude_total n panicked old rest s h = λ e. cc
    conclude_total n out_of_fuel old rest s h = absurd s

    pub receive_loop_total :
        (fuel : ℕ) (mesh : Mesh Ws Link)
        → length mesh.rx_raw ≤ fuel
        → receive_loop web stream fuel mesh ≢ out_of_fuel
    unfolding receive_loop
    receive_loop_total zero mesh h =
        conclude_total (length mesh.rx_raw) (receive_round web stream mesh) mesh (λ m. out_of_fuel)
          (receive_round-Shrinks mesh) (λ m less. absurd (omega arith))
    receive_loop_total (suc fuel) mesh h =
        conclude_total (length mesh.rx_raw) (receive_round web stream mesh) mesh
          (receive_loop web stream fuel) (receive_round-Shrinks mesh)
          (λ m less. receive_loop_total fuel m (omega arith))

    -- When every frame that the library reads uses up at least a byte, the operations of the
    -- stream end, and there is fuel for the bytes that wait and those that are pumped in, the
    -- call does not run out of fuel: it returns or panics.
    pub try_next_text_total :
        (fuel : ℕ) (mesh : Mesh Ws Link)
        → ((bytes : List ℕ) (link : Link)
            → stream.pump mesh.link ≡ returned (bytes, link)
            → length mesh.rx_raw + length bytes ≤ fuel)
        → try_next_text web stream fuel mesh ≢ out_of_fuel
    unfolding try_next_text
    try_next_text_total fuel mesh h =
        and_then_total (stream.pump mesh.link) _ (total.pump_total mesh.link) (λ got e.
          receive_loop_total fuel (record mesh { link = got.1; rx_raw = mesh.rx_raw ++ got.0 })
            (omega (arith, length-append mesh.rx_raw got.0, h got.0 got.1 e)))

-- The rounds of `try_next_text` at a session: a byte each.
unfoldable pub rx_rounds : {Ws Link : Type 0} → Stream Link → Mesh Ws Link → ℕ
rx_rounds stream mesh = elim (stream.pump mesh.link) [
  | returned got ↦ length mesh.rx_raw + length got.0
  | _ ↦ 0
]

pub rx_rounds_fit :
    {Ws Link : Type 0} (stream : Stream Link) (mesh : Mesh Ws Link) (bytes : List ℕ) (link : Link)
    → stream.pump mesh.link ≡ returned (bytes, link)
    → length mesh.rx_raw + length bytes ≤ rx_rounds stream mesh
unfolding rx_rounds
rx_rounds_fit stream mesh bytes link e = rw (e, rx_rounds) (omega arith)
