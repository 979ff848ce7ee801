-- ===== src/Kernel/Nic/Buffers.antt =====
-- The receive buffers of the device (kernel/src/net/smol.rs).
use apex_os_rv.Prelude.{
  ℕ, ◌+◌, ◌≡◌, refl, ◌∙◌, Option, none, some, List, [], ◌∷◌, length, Bool-cases, inl, inr, arith,
  if◌then◌else◌,
}
use apex_os_rv.Kernel.Nic.{VirtioNet, receive, transmit, consume_rx, consume_tx}

-- How many receive buffers the driver holds: a received one is out until it is recycled.
pub record HasBuffers {N Buffer : Type 0} (nic : VirtioNet N Buffer) : Type 0 where
  pub held : N → ℕ
  pub received : (n n' : N) (b : Buffer) → nic.receive n ≡ (some b, n') → held n' + 1 ≡ held n
  pub failed : (n n' : N) → nic.receive n ≡ (none, n') → held n' ≡ held n
  pub recycled : (b : Buffer) (n : N) → held (nic.recycle_rx_buffer b n) ≡ held n + 1
  pub sent : (packet : List ℕ) (n : N) → held (nic.send packet n) ≡ held n

module _ {N Buffer : Type 0} (nic : VirtioNet N Buffer) where
  -- How smoltcp uses the device: it takes a pair of tokens and consumes the receive token, and inside
  -- that, or on its own, it sends packets through transmit tokens.
  pub data Use : Type 0 where
    ingress : (List ℕ → List (List ℕ)) → Use
    egress : List ℕ → Use

  abbrev fills : List ℕ → List ℕ → Unit {0} × List ℕ
  fills packet zeros = (tt, packet)

  -- One packet, if there is a token for it.
  abbrev pub send_one : List ℕ → N → N
  send_one packet n =
      if transmit nic n then (consume_tx nic (length packet) (fills packet) n).1 else n

  -- The answers to a packet go out through the transmit token of the pair, which asks no more.
  abbrev pub send_all : List (List ℕ) → N → N
  send_all [] n = n
  send_all (packet ∷ more) n = send_all more (consume_tx nic (length packet) (fills packet) n).1

  abbrev pub take_in : (List ℕ → List (List ℕ)) → Option Buffer × N → N
  take_in answers (none, n) = n
  take_in answers (some b, n) =
      (consume_rx nic (λ packet n'. (tt, send_all (answers packet) n')) b n).1

  abbrev pub used : Use → N → N
  used (ingress answers) n = take_in answers (receive nic n)
  used (egress packet) n = send_one packet n

  abbrev pub used_all : List Use → N → N
  used_all [] n = n
  used_all (u ∷ us) n = used_all us (used u n)

  module _ (h : HasBuffers nic) where
    send_all-held : (packets : List (List ℕ)) (n : N) → h.held (send_all packets n) ≡ h.held n
    unfolding consume_tx
    send_all-held [] n = refl
    send_all-held (packet ∷ more) n = send_all-held more (nic.send packet n) ∙ h.sent packet n

    take_in-held :
        (answers : List ℕ → List (List ℕ)) (n : N) (r : Option Buffer × N)
        → nic.receive n ≡ r
        → h.held (take_in answers r) ≡ h.held n
    unfolding consume_rx
    take_in-held answers n (none, n') e = h.failed n n' e
    take_in-held answers n (some b, n') e = omega (
      arith,
      h.recycled b (send_all (answers (nic.packet b)) n'),
      send_all-held (answers (nic.packet b)) n',
      h.received n n' b e,
    )

    used-held : (u : Use) (n : N) → h.held (used u n) ≡ h.held n
    unfolding receive transmit consume_tx
    used-held (ingress answers) n = elim (Bool-cases (nic.can_recv n)) [
      | inl some_in ↦ rw some_in (take_in-held answers n (nic.receive n) refl)
      | inr none_in ↦ rw none_in refl
    ]
    used-held (egress packet) n = elim (Bool-cases (nic.can_send n)) [
      | inl able ↦ rw able (h.sent packet n)
      | inr full ↦ rw full refl
    ]

    -- Where the driver holds one buffer less for each that it hands out and one more for each
    -- that is recycled, and sending changes none: after any uses of the device, with answers sent
    -- while a packet is read, it holds as many receive buffers as before.
    pub used_all-held : (us : List Use) (n : N) → h.held (used_all us n) ≡ h.held n
    used_all-held [] n = refl
    used_all-held (u ∷ us) n = used_all-held us (used u n) ∙ used-held u n
