-- ===== src/Kernel/Link/Total.antt =====
-- Pumping and sending end, and the time that sending takes (`Mesh::pump` and `blocking_send_raw`,
-- kernel/src/net/mesh.rs).
use apex_os_rv.Prelude.{
  ℕ, zero, suc, ◌+◌, ◌-◌, ◌*◌, ◌≤◌, ◌<◌, ◌≡◌, ◌≢◌, true, some, List, drop, length, ltb, ltb→lt,
  ltb_false→le, ltb_of_le, returned, out_of_fuel, and_then_total, and_then-returned, returned_inj,
  expect, expect_total, expect-returned, subst, refl, panicked, Outcome-cases, Bool-cases, inl, inr,
  ◌⊎◌, arith,
}
use apex_os_rv.Kernel.Watchdog.{u64}
use apex_os_rv.Kernel.Link.{
  Tcp, establish_timeout, nap, idle_tick, drain, pump, send_some, idle_unless_done, send_round,
  send_loop, blocking_send_raw,
}

-- What a call may take at most: the timer wraps sixteen times later.
abbrev pub slow : ℕ
slow = 1152921504606846976

-- The time since the timer started, of which the timer reads the low 64 bits. A call takes some, a
-- wait a tick at least.
pub record IsTimed {T : Type 0} (tcp : Tcp T) : Type 0 where
  pub time : T → ℕ
  pub reads : (t : T) → (tcp.mtime t).0 ≡ u64 (time t)
  pub mtime_takes :
      (t : T) → (time t ≤ time (tcp.mtime t).1) × (time (tcp.mtime t).1 ≤ time t + slow)
  pub poll_takes : (t : T) → (time t ≤ time (tcp.poll t)) × (time (tcp.poll t) ≤ time t + slow)
  pub send_takes :
      (bytes : List ℕ) (t : T) (n : ℕ) (t' : T)
      → tcp.send_slice bytes t ≡ some (n, t')
      → (time t ≤ time t') × (time t' ≤ time t + slow)
  pub wait_takes :
      (deadline : ℕ) (t : T)
      → (time t < time (tcp.wait deadline t)) × (time (tcp.wait deadline t) ≤ time t + slow)

-- What the socket has received is used up by reading it.
module _ {T : Type 0} (tcp : Tcp T) (waiting : T → ℕ)
    (uses : (t : T) → tcp.can_recv t ≡ true → waiting (tcp.recv t).1 < waiting t) where
  drain_total : (fuel : ℕ) (t : T) → waiting t ≤ fuel → drain tcp fuel t ≢ out_of_fuel
  unfolding drain
  drain_total zero t enough = elim (Bool-cases (tcp.can_recv t)) [
    | inl more ↦ absurd (omega (arith, uses t more))
    | inr idle ↦ rw idle (λ e. cc)
  ]
  drain_total (suc fuel) t enough = elim (Bool-cases (tcp.can_recv t)) [
    | inl more ↦ rw more (
        and_then_total (drain tcp fuel (tcp.recv t).1) _
          (drain_total fuel (tcp.recv t).1 (omega (arith, uses t more))) (λ got e e'. cc))
    | inr idle ↦ rw idle (λ e. cc)
  ]

  -- With fuel for what waits after the poll, `pump` ends.
  pub pump_total : (fuel : ℕ) (t : T) → waiting (tcp.poll t) ≤ fuel → pump tcp fuel t ≢ out_of_fuel
  unfolding pump
  pump_total fuel t enough = drain_total fuel (tcp.poll t) enough

module _ {T : Type 0} (tcp : Tcp T) where
  idle_tick_total : (deadline : ℕ) (t : T) → idle_tick tcp deadline t ≢ out_of_fuel
  unfolding idle_tick
  idle_tick_total deadline t = elim (Bool-cases (ltb deadline (tcp.mtime t).0)) [
    | inl late ↦ rw late (λ e. cc)
    | inr early ↦ rw early (λ e. cc)
  ]

  send_some_total : (bytes : List ℕ) (off : ℕ) (t : T) → send_some tcp bytes off t ≢ out_of_fuel
  unfolding send_some
  send_some_total bytes off t = elim (Bool-cases (tcp.can_send (tcp.poll t))) [
    | inl able ↦ rw able (
        and_then_total (expect (tcp.send_slice (drop off bytes) (tcp.poll t))) _ (expect_total _)
          (λ sent e e'. cc))
    | inr full ↦ rw full (λ e. cc)
  ]

  idle_unless_done_total :
      (deadline : ℕ) (bytes : List ℕ) (r : ℕ × T)
      → idle_unless_done tcp deadline bytes r ≢ out_of_fuel
  unfolding idle_unless_done
  idle_unless_done_total deadline bytes (off, t) = elim (Bool-cases (ltb off (length bytes))) [
    | inl left ↦
        rw left
          (and_then_total (idle_tick tcp deadline t) _ (idle_tick_total deadline t) (λ t' e e'. cc))
    | inr done ↦ rw done (λ e. cc)
  ]

  send_round_total :
      (deadline : ℕ) (bytes : List ℕ) (off : ℕ) (t : T)
      → send_round tcp deadline bytes off t ≢ out_of_fuel
  unfolding send_round
  send_round_total deadline bytes off t =
      and_then_total (send_some tcp bytes off t) _ (send_some_total bytes off t)
        (λ r e. idle_unless_done_total deadline bytes r)

-- Nothing is left to send.
send_loop_done :
    {T : Type 0} (tcp : Tcp T) (fuel deadline : ℕ) (bytes : List ℕ) (off : ℕ) (t : T)
    → length bytes ≤ off
    → send_loop tcp fuel deadline bytes off t ≡ returned (tcp.poll t)
unfolding send_loop
send_loop_done tcp zero deadline bytes off t done = rw (ltb_of_le off (length bytes) done) refl
send_loop_done tcp (suc fuel) deadline bytes off t done =
    rw (ltb_of_le off (length bytes) done) refl

-- A sending that starts at `start` and is to end by `deadline`, both read by the timer.
module _ {T : Type 0} (tcp : Tcp T) (h : IsTimed tcp) (start deadline : ℕ)
    (ahead : u64 start + establish_timeout + 8 * slow < 18446744073709551616)
    (due : deadline ≡ u64 start + establish_timeout) where
  -- A time of the sending between two calls.
  abbrev InTime : ℕ → Type 0
  InTime t = (start ≤ t) × (t ≤ start + establish_timeout + 5 * slow)

  -- A time that the timer reads as past the deadline or not is so.
  u64-InTime : (t : ℕ) → InTime t → u64 t ≤ deadline → t ≤ start + establish_timeout
  u64-InTime t (from, to) read = omega arith

  nap_takes : (t : T) → (h.time t < h.time (nap tcp t)) × (h.time (nap tcp t) ≤ h.time t + 2 * slow)
  unfolding nap
  nap_takes t =
      let m = h.mtime_takes t in
      let waited = h.wait_takes (u64 ((tcp.mtime t).0 + 10000)) (tcp.mtime t).1 in
      (omega (arith, m, waited), omega (arith, m, waited))

  -- From one time to another, within some calls.
  abbrev Took : ℕ → ℕ → ℕ → Type 0
  Took n from to = (from ≤ to) × (to ≤ from + n * slow)

  -- From one time, before the deadline, to a later one.
  abbrev Idled : ℕ → ℕ → Type 0
  Idled from to = (from ≤ start + establish_timeout) × (from < to) × (to ≤ from + 3 * slow)

  idle_tick-returned :
      (t t' : T)
      → InTime (h.time t)
      → idle_tick tcp deadline t ≡ returned t'
      → Idled (h.time t) (h.time t')
  unfolding idle_tick
  idle_tick-returned t t' i e = elim (Bool-cases (ltb deadline (tcp.mtime t).0)) [
    | inl late ↦ absurd (ground (arith, e, late))
    | inr early ↦
        let same : nap tcp (tcp.mtime t).1 ≡ t' = returned_inj (rw early at e) in
        let read : u64 (h.time t) ≤ deadline =
          omega (arith, ltb_false→le deadline (tcp.mtime t).0 early, h.reads t) in
        let m = h.mtime_takes t in
        let n = nap_takes (tcp.mtime t).1 in
        subst (λ x. Idled (h.time t) (h.time x)) same
          (u64-InTime (h.time t) i read, omega (arith, m, n), omega (arith, m, n))
  ]

  send_some-returned :
      (bytes : List ℕ) (off : ℕ) (t : T) (r : ℕ × T)
      → send_some tcp bytes off t ≡ returned r
      → Took 2 (h.time t) (h.time r.1)
  unfolding send_some
  send_some-returned bytes off t r e =
      let p = h.poll_takes t in
      elim (Bool-cases (tcp.can_send (tcp.poll t))) [
        | inl able ↦
            let (sent, taken, same) =
              and_then-returned (expect (tcp.send_slice (drop off bytes) (tcp.poll t))) _ r
                (rw able at e) in
            let s =
              h.send_takes (drop off bytes) (tcp.poll t) sent.0 sent.1
                (expect-returned _ sent taken) in
            subst (λ x. Took 2 (h.time t) (h.time x.1)) (returned_inj same)
              (omega (arith, p, s), omega (arith, p, s))
        | inr full ↦
            subst (λ x. Took 2 (h.time t) (h.time x.1)) (returned_inj (rw full at e))
              (omega (arith, p), omega (arith, p))
      ]

  -- A round that leaves bytes to send was in time, and took some.
  idle_unless_done-returned :
      (bytes : List ℕ) (r r' : ℕ × T)
      → InTime (h.time r.1)
      → idle_unless_done tcp deadline bytes r ≡ returned r'
      → (length bytes ≤ r'.0) ⊎ Idled (h.time r.1) (h.time r'.1)
  unfolding idle_unless_done
  idle_unless_done-returned bytes (off, t) r' i e = elim (Bool-cases (ltb off (length bytes))) [
    | inl left ↦
        let (t', ticked, same) = and_then-returned (idle_tick tcp deadline t) _ r' (rw left at e) in
        inr (
          subst (λ x. Idled (h.time t) (h.time x.1)) (returned_inj same)
            (idle_tick-returned t t' i ticked))
    | inr done ↦ inl (
        subst (λ x. length bytes ≤ x.0) (returned_inj (rw done at e))
          (ltb_false→le off (length bytes) done))
  ]

  -- A time at which a round starts.
  abbrev Starts : ℕ → Type 0
  Starts t = (start ≤ t) × (t ≤ start + establish_timeout + 3 * slow)

  -- At the start of a later round.
  abbrev Later : ℕ → ℕ → Type 0
  Later from to =
      (from < to) × (from ≤ start + establish_timeout) × (to ≤ start + establish_timeout + 3 * slow)

  send_round-returned :
      (bytes : List ℕ) (off : ℕ) (t : T) (r : ℕ × T)
      → Starts (h.time t)
      → send_round tcp deadline bytes off t ≡ returned r
      → (length bytes ≤ r.0) ⊎ Later (h.time t) (h.time r.1)
  unfolding send_round
  send_round-returned bytes off t r (from, to) e =
      let (mid, some_sent, idled) = and_then-returned (send_some tcp bytes off t) _ r e in
      let s = send_some-returned bytes off t mid some_sent in
      elim (idle_unless_done-returned bytes mid r (omega (arith, s), omega (arith, s)) idled) [
        | inl done ↦ inl done
        | inr later ↦
            inr (omega (arith, s, later), omega (arith, s, later), omega (arith, s, later))
      ]

  send_loop_total :
      (fuel : ℕ) (bytes : List ℕ) (off : ℕ) (t : T)
      → Starts (h.time t)
      → (length bytes ≤ off) ⊎ (start + establish_timeout + 1 - h.time t < fuel)
      → send_loop tcp fuel deadline bytes off t ≢ out_of_fuel
  unfolding send_loop
  send_loop_total zero bytes off t i (inl done) = rw (ltb_of_le off (length bytes) done) (λ e. cc)
  send_loop_total zero bytes off t i (inr enough) = absurd (omega arith)
  send_loop_total (suc fuel) bytes off t i enough = elim (Bool-cases (ltb off (length bytes))) [
    | inr done ↦ rw done (λ e. cc)
    | inl left ↦ rw left (
        and_then_total (send_round tcp deadline bytes off t) _
          (send_round_total tcp deadline bytes off t)
          (λ r e. elim (send_round-returned bytes off t r i e) [
            | inl done ↦ rw (send_loop_done tcp fuel deadline bytes r.0 r.1 done) (λ e. cc)
            | inr (passed, in_time, to) ↦
                send_loop_total fuel bytes r.0 r.1 (omega (arith, i), omega (arith, to))
                  (inr (ground (arith, ltb→lt off (length bytes) left)))
          ]))
  ]

-- With a timer that reads the low 64 bits of the time, where every call takes a sixteenth of the
-- timer's range at most and every wait a tick at least, and which does not wrap within the
-- timeout and half its range from now: with fuel for the ticks of the timeout, sending ends,
-- whatever the socket takes: it returns or panics.
pub blocking_send_raw_total :
    {T : Type 0} (tcp : Tcp T) (fuel : ℕ) (bytes : List ℕ) (t : T) (h : IsTimed tcp)
    → u64 (h.time t) + establish_timeout + 8 * slow < 18446744073709551616
    → establish_timeout + 2 ≤ fuel
    → ((t' : T) × (blocking_send_raw tcp fuel bytes t ≡ returned t'))
      ⊎ (blocking_send_raw tcp fuel bytes t ≡ panicked)
unfolding blocking_send_raw
blocking_send_raw_total tcp fuel bytes t h ahead enough =
    let m = h.mtime_takes t in
    Outcome-cases _ (
      send_loop_total tcp h (h.time t) (u64 ((tcp.mtime t).0 + establish_timeout)) ahead
        (omega (arith, h.reads t)) fuel bytes 0 (tcp.mtime t).1 (omega (arith, m), omega (arith, m))
        (inr (omega (arith, m))))
