-- ===== src/Kernel/Probe.antt =====
-- The search for the network device (`probe`, kernel/src/net/mod.rs). The driver library's calls on a
-- slot are parameters, and their results stand for what they do to the device.
use mathlib.Core.Option.{some_inj}
use apex_os_rv.Prelude.{
  ◌≢◌, true, false, subst, Bool-cases, ℕ, zero, suc, ◌+◌, ◌*◌, ◌<◌, ◌≤◌, ◌≡◌, ◌↔◌, refl, ap, sym,
  ◌⊎◌, ◌∙◌, Bool, Option, none, some, Option-cases, inl, inr, ◌>>=◌, if◌then◌else◌, arith,
}

abbrev pub virtio_mmio_base : ℕ
virtio_mmio_base = 268439552

abbrev pub virtio_mmio_stride : ℕ
virtio_mmio_stride = 4096

abbrev pub virtio_mmio_slots : ℕ
virtio_mmio_slots = 8

-- `MmioTransport::new` at an address, whether the device type is `Network`, and `Nic::new`; `none` is
-- an error.
pub record Virtio (Transport Nic : Type 0) : Type 0 where
  pub transport : ℕ → Option Transport
  pub is_network : Transport → Bool
  pub nic : Transport → Option Nic

module _ {Transport Nic : Type 0} (virtio : Virtio Transport Nic) where
  -- The body of the loop; `none` goes on to the next slot.
  unfoldable pub try_slot : ℕ → Option Nic
  try_slot slot = virtio.transport (virtio_mmio_base + slot * virtio_mmio_stride) >>= λ t.
      if virtio.is_network t then virtio.nic t else none

  -- A slot with a device ends the loop.
  abbrev or_else : Option Nic → Option Nic → Option Nic
  or_else (some n) rest = some n
  or_else none rest = rest

  -- The loop over `left` slots from `slot` on.
  unfoldable pub probe_from : ℕ → ℕ → Option Nic
  probe_from zero slot = none
  probe_from (suc left) slot = or_else (try_slot slot) (probe_from left (slot + 1))

  unfoldable pub probe : Option Nic
  unfolding probe_from
  probe = probe_from virtio_mmio_slots 0

  -- The first slot from `slot` on, of `left`, where a device comes up.
  abbrev First : ℕ → ℕ → Nic → Type 0
  First left slot n =
      (k : ℕ) × (slot ≤ k)
      × (k < slot + left)
      × (try_slot k ≡ some n)
      × ((j : ℕ) → slot ≤ j → j < k → try_slot j ≡ none)

  probe_from-up :
      (left slot : ℕ) (n : Nic) → try_slot slot ≡ some n → probe_from (suc left) slot ≡ some n
  unfolding probe_from
  probe_from-up left slot n e = rw e refl

  probe_from-skip :
      (left slot : ℕ)
      → try_slot slot ≡ none
      → probe_from (suc left) slot ≡ probe_from left (slot + 1)
  unfolding probe_from
  probe_from-skip left slot e = rw e refl

  same_or_later : (slot j : ℕ) → slot ≤ j → (slot ≡ j) ⊎ (slot + 1 ≤ j)
  same_or_later slot j h = ground arith

  probe_from-First : (left slot : ℕ) (n : Nic) → probe_from left slot ≡ some n → First left slot n
  probe_from-First zero slot n e = absurd (unfold probe_from in ground arith)
  probe_from-First (suc left) slot n e = elim (Option-cases (try_slot slot)) [
    | inl no_device ↦
        let (k, lo, hi, hit, before) =
          probe_from-First left (slot + 1) n (sym (probe_from-skip left slot no_device) ∙ e) in
        (
          k,
          omega arith,
          omega arith,
          hit,
          λ j from below. elim (same_or_later slot j from) [
            | inl same ↦ ap try_slot (sym same) ∙ no_device
            | inr later ↦ before j later below
          ],
        )
    | inr (m, up) ↦ (
      slot,
      omega arith,
      omega arith,
      up ∙ sym (probe_from-up left slot m up) ∙ e,
      λ j from below. absurd (omega arith),
    )
  ]

  First-probe_from : (left slot : ℕ) (n : Nic) → First left slot n → probe_from left slot ≡ some n
  First-probe_from zero slot n (k, lo, hi, hit, before) = absurd (omega arith)
  First-probe_from (suc left) slot n (k, lo, hi, hit, before) = elim (same_or_later slot k lo) [
    | inl same ↦ probe_from-up left slot n (ap try_slot same ∙ hit)
    | inr later ↦
        probe_from-skip left slot (before slot (omega arith) (omega arith))
        ∙ First-probe_from left (slot + 1) n
            (k, later, omega arith, hit, λ j from below. before j (omega arith) below)
  ]

  -- A slot, by its number, that holds a network device which comes up: the slots lie 4 KiB apart
  -- from 0x1000_1000 on.
  abbrev pub ComesUp : ℕ → Nic → Type 0
  ComesUp slot n =
      (t : Transport) × (virtio.transport (0x1000_1000 + slot * 0x1000) ≡ some t)
      × (virtio.is_network t ≡ true)
      × (virtio.nic t ≡ some n)

  -- A slot that is empty, holds another device, or holds one that does not come up.
  abbrev pub Fails : ℕ → Type 0
  Fails slot =
      (virtio.transport (0x1000_1000 + slot * 0x1000) ≡ none)
      ⊎ ((t : Transport) × (virtio.transport (0x1000_1000 + slot * 0x1000) ≡ some t)
          × ((virtio.is_network t ≡ false) ⊎ (virtio.nic t ≡ none)))

  try_slot-ComesUp : (slot : ℕ) (n : Nic) → ComesUp slot n → try_slot slot ≡ some n
  unfolding try_slot
  try_slot-ComesUp slot n (t, opens, network, up) = rw (opens, network, up) refl

  try_slot-Fails : (slot : ℕ) → Fails slot → try_slot slot ≡ none
  unfolding try_slot
  try_slot-Fails slot (inl empty) = rw empty refl
  try_slot-Fails slot (inr (t, opens, inl other)) = rw (opens, other) refl
  try_slot-Fails slot (inr (t, opens, inr down)) = elim (Bool-cases (virtio.is_network t)) [
    | inl network ↦ rw (opens, network, down) refl
    | inr other ↦ rw (opens, other) refl
  ]

  -- Each slot does one or the other.
  slot-cases : (slot : ℕ) → ((n : Nic) × ComesUp slot n) ⊎ Fails slot
  slot-cases slot =
      elim (Option-cases (virtio.transport (virtio_mmio_base + slot * virtio_mmio_stride))) [
        | inl empty ↦ inr (inl empty)
        | inr (t, opens) ↦ elim (Bool-cases (virtio.is_network t)) [
          | inr other ↦ inr (inr (t, opens, inl other))
          | inl network ↦ elim (Option-cases (virtio.nic t)) [
            | inl down ↦ inr (inr (t, opens, inr down))
            | inr (n, up) ↦ inl (n, (t, opens, network, up))
          ]
        ]
      ]

  none-ne-some : (n : Nic) → none ≢ some n
  none-ne-some n e = ground arith

  ComesUp-try_slot : (slot : ℕ) (n : Nic) → try_slot slot ≡ some n → ComesUp slot n
  ComesUp-try_slot slot n e = elim (slot-cases slot) [
    | inl (m, up) ↦ subst (ComesUp slot) (some_inj.0 (sym (try_slot-ComesUp slot m up) ∙ e)) up
    | inr fails ↦ absurd (none-ne-some n (sym (try_slot-Fails slot fails) ∙ e))
  ]

  Fails-try_slot : (slot : ℕ) → try_slot slot ≡ none → Fails slot
  Fails-try_slot slot e = elim (slot-cases slot) [
    | inl (m, up) ↦ absurd (none-ne-some m (sym e ∙ try_slot-ComesUp slot m up))
    | inr fails ↦ fails
  ]

  -- The search returns a device exactly when, at one of the eight slots that lie 4 KiB apart from
  -- 0x1000_1000 on, a transport opens, its device is a network device and it comes up as that
  -- one, and every slot before is empty, holds another device, or holds one that does not come
  -- up.
  pub probe_iff :
      (n : Nic) → (probe ≡ some n) ↔ ((k : ℕ) × (k < 8) × ComesUp k n × ((j : ℕ) → j < k → Fails j))
  unfolding probe
  probe_iff n = (
    λ e.
        let (k, lo, hi, hit, before) = probe_from-First virtio_mmio_slots 0 n e in
        (
          k,
          omega arith,
          ComesUp-try_slot k n hit,
          λ j below. Fails-try_slot j (before j (omega arith) below),
        ),
    λ (k, hi, up, fails). First-probe_from virtio_mmio_slots 0 n (
      k,
      omega arith,
      omega arith,
      try_slot-ComesUp k n up,
      λ j from below. try_slot-Fails j (fails j below),
    ),
  )
