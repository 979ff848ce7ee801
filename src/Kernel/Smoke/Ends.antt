-- ===== src/Kernel/Smoke/Ends.antt =====
-- How the echo smoke test ends (kernel/src/net/smoke.rs).
use apex_os_rv.Prelude.{
  ℕ, zero, suc, ◌+◌, ◌-◌, ◌*◌, ◌≤◌, ◌<◌, ◌≡◌, refl, true, false, not, ◌&&◌, Option, none, some,
  List, [], ◌++◌, take, length, ltb, leb, ◌==◌, list_eq, nat_eq, list_beq_iff, ltb_false→le, inl,
  inr, ◌⊎◌, Bool-cases, Outcome, returned, panicked, out_of_fuel, and_then, expect, arith,
}
use apex_os_rv.Kernel.Watchdog.{u64, wrapping_sub}
use apex_os_rv.Kernel.Watchdog.Round.{wrapping_sub-elapsed}
use apex_os_rv.Kernel.Smoke.{
  EchoTcp, Smoke, Step, passes, goes_on, ping, timeout_ticks, send_ping, judge, take_echo,
  smoke_round, idle, and_on, smoke_loop, smoke,
}

-- What a call may take at most: the timer wraps sixteen times later.
abbrev pub slow : ℕ
slow = 1152921504606846976

-- Every call takes some time, a wait at least a tick, and the timer reads the time, which may wrap.
pub record IsSteady {T : Type 0} (tcp : EchoTcp T) : Type 0 where
  pub time : T → ℕ
  pub reads : (t : T) → (tcp.mtime t).0 ≡ u64 (time t)
  pub mtime_takes :
      (t : T) → (time t ≤ time (tcp.mtime t).1) × (time (tcp.mtime t).1 ≤ time t + slow)
  pub poll_takes : (t : T) → (time t ≤ time (tcp.poll t)) × (time (tcp.poll t) ≤ time t + slow)
  pub send_takes :
      (bytes : List ℕ) (t : T) (r : ℕ × T)
      → tcp.send_slice bytes t ≡ some r
      → (time t ≤ time r.1) × (time r.1 ≤ time t + slow)
  pub recv_takes :
      (n : ℕ) (t : T) (r : List ℕ × T)
      → tcp.recv_slice n t ≡ some r
      → (time t ≤ time r.1) × (time r.1 ≤ time t + slow)
  pub wait_takes :
      (deadline : ℕ) (t : T)
      → (time t < time (tcp.wait deadline t)) × (time (tcp.wait deadline t) ≤ time t + slow)

module _ {T : Type 0} (tcp : EchoTcp T) (h : IsSteady tcp) where
  -- What the kernel may end with, and what a round may come to between two times.
  abbrev Ends : Outcome (Smoke T) → Type 0
  Ends (returned s) = take (length ping) s.buf ≡ ping
  Ends panicked = Unit {0}
  Ends out_of_fuel = ⊥

  abbrev Rounds : ℕ → ℕ → Outcome (Step T) → Type 0
  Rounds from to (returned (passes s)) = take (length ping) s.buf ≡ ping
  Rounds from to (returned (goes_on s)) = (from ≤ h.time s.socket) × (h.time s.socket ≤ to)
  Rounds from to panicked = Unit {0}
  Rounds from to out_of_fuel = ⊥

  judge-Rounds :
      (from to : ℕ) (s : Smoke T)
      → from ≤ h.time s.socket
      → h.time s.socket ≤ to
      → Rounds from to (judge tcp s)
  unfolding judge
  judge-Rounds from to s p q = elim (Bool-cases (leb (length ping) (length s.buf))) [
    | inl full ↦ elim (Bool-cases (take (length ping) s.buf == ping)) [
      | inl same ↦ rw (full, same) ((list_beq_iff (take (length ping) s.buf) ping).0 same)
      | inr other ↦ rw (full, other) tt
    ]
    | inr short ↦ rw short (p, q)
  ]

  received-Rounds :
      (from to : ℕ) (s : Smoke T) (o : Option (List ℕ × T))
      → tcp.recv_slice (64 - length s.buf) s.socket ≡ o
      → from ≤ h.time s.socket
      → h.time s.socket + slow ≤ to
      → Rounds from to
          (and_then (expect o) (λ r. judge tcp (record s { socket = r.1; buf = s.buf ++ r.0 })))
  received-Rounds from to s none e p q = tt
  received-Rounds from to s (some r) e p q =
      let takes = h.recv_takes (64 - length s.buf) s.socket r e in
      judge-Rounds from to (record s { socket = r.1; buf = s.buf ++ r.0 }) (omega (arith, takes))
        (omega (arith, takes))

  take_echo-Rounds :
      (from to : ℕ) (s : Smoke T)
      → from ≤ h.time s.socket
      → h.time s.socket + slow ≤ to
      → Rounds from to (take_echo tcp s)
  unfolding take_echo
  take_echo-Rounds from to s p q = elim (Bool-cases (s.sent && tcp.can_recv s.socket)) [
    | inl able ↦
        rw able (received-Rounds from to s (tcp.recv_slice (64 - length s.buf) s.socket) refl p q)
    | inr not_yet ↦ rw not_yet (p, omega arith)
  ]

  sent-Rounds :
      (from to : ℕ) (s : Smoke T) (o : Option (ℕ × T))
      → tcp.send_slice ping s.socket ≡ o
      → from ≤ h.time s.socket
      → h.time s.socket + 2 * slow ≤ to
      → Rounds from to (
          and_then
            (and_then (expect o) (λ r. returned (record s { socket = r.1; sent = true })))
            (take_echo tcp))
  sent-Rounds from to s none e p q = tt
  sent-Rounds from to s (some r) e p q =
      let takes = h.send_takes ping s.socket r e in
      take_echo-Rounds from to (record s { socket = r.1; sent = true }) (omega (arith, takes))
        (omega (arith, takes))

  send_ping-Rounds :
      (from to : ℕ) (s : Smoke T)
      → from ≤ h.time s.socket
      → h.time s.socket + 2 * slow ≤ to
      → Rounds from to (and_then (send_ping tcp s) (take_echo tcp))
  unfolding send_ping
  send_ping-Rounds from to s p q = elim (Bool-cases (not s.sent && tcp.can_send s.socket)) [
    | inl able ↦ rw able (sent-Rounds from to s (tcp.send_slice ping s.socket) refl p q)
    | inr not_yet ↦ rw not_yet (take_echo-Rounds from to s p (omega arith))
  ]

  -- A round that is overdue panics; any other ends well, or goes on a little later.
  smoke_round-Rounds :
      (start : ℕ) (s : Smoke T)
      → start ≤ h.time s.socket
      → h.time s.socket ≤ start + timeout_ticks + 8 * slow
      → (smoke_round tcp (u64 start) s ≡ panicked)
        ⊎ ((h.time s.socket ≤ start + timeout_ticks)
            × Rounds (h.time s.socket) (h.time s.socket + 4 * slow) (smoke_round tcp (u64 start) s))
  unfolding smoke_round
  smoke_round-Rounds start s p q =
      let elapsed : wrapping_sub (tcp.mtime s.socket).0 (u64 start) ≡ h.time s.socket - start =
        rw h.reads (wrapping_sub-elapsed start (h.time s.socket) p (omega arith)) in
      elim (Bool-cases (ltb timeout_ticks (h.time s.socket - start))) [
        | inl late ↦ rw elapsed (rw late (inl refl))
        | inr early ↦
            let polled = record s { socket = tcp.poll (tcp.mtime s.socket).1 } in
            rw elapsed (
              rw early (
                inr (
                  omega (arith, ltb_false→le timeout_ticks (h.time s.socket - start) early),
                  send_ping-Rounds (h.time s.socket) (h.time s.socket + 4 * slow) polled
                      (omega (arith, h.mtime_takes s.socket, h.poll_takes (tcp.mtime s.socket).1))
                      (omega (arith, h.mtime_takes s.socket, h.poll_takes (tcp.mtime s.socket).1)),
                )))
      ]

  idle-takes :
      (s : Smoke T)
      → (h.time s.socket < h.time (idle tcp s).socket)
        × (h.time (idle tcp s).socket ≤ h.time s.socket + 2 * slow)
  unfolding idle
  idle-takes s =
      let waits = h.wait_takes (u64 ((tcp.mtime s.socket).0 + 10000)) (tcp.mtime s.socket).1 in
      (omega (arith, h.mtime_takes s.socket, waits), omega (arith, h.mtime_takes s.socket, waits))

  and_on-Ends :
      (from to : ℕ) (o : Outcome (Step T)) (rest : Smoke T → Outcome (Smoke T))
      → Rounds from to o
      → ((s : Smoke T) → from < h.time s.socket → h.time s.socket ≤ to + 2 * slow → Ends (rest s))
      → Ends (and_then o (and_on tcp rest))
  and_on-Ends from to (returned (passes s)) rest r k = r
  and_on-Ends from to (returned (goes_on s)) rest (p, q) k =
      k (idle tcp s) (omega (arith, idle-takes s)) (omega (arith, idle-takes s))
  and_on-Ends from to panicked rest r k = tt
  and_on-Ends from to out_of_fuel rest r k = r

  smoke_loop-Ends :
      (fuel start : ℕ) (s : Smoke T)
      → start ≤ h.time s.socket
      → h.time s.socket ≤ start + timeout_ticks + 8 * slow
      → start + timeout_ticks + 1 - h.time s.socket < fuel
      → Ends (smoke_loop tcp fuel (u64 start) s)
  unfolding smoke_loop
  smoke_loop-Ends zero start s p q enough = absurd (omega arith)
  smoke_loop-Ends (suc fuel) start s p q enough = elim (smoke_round-Rounds start s p q) [
    | inl late ↦ rw late tt
    | inr (in_time, r) ↦
        and_on-Ends (h.time s.socket) (h.time s.socket + 4 * slow) (smoke_round tcp (u64 start) s)
          (smoke_loop tcp fuel (u64 start)) r
          (λ s' later soon. smoke_loop-Ends fuel start s' (omega arith) (omega arith) (omega arith))
  ]

  Ends-cases :
      (o : Outcome (Smoke T))
      → Ends o
      → (o ≡ panicked) ⊎ ((s : Smoke T) × (o ≡ returned s) × (take (length ping) s.buf ≡ ping))
  Ends-cases (returned s) e = inr (s, refl, e)
  Ends-cases panicked e = inl refl
  Ends-cases out_of_fuel e = absurd e

  -- When every call takes a sixteenth of the timer's range at most and every wait at least a
  -- tick, where the timer may wrap: with fuel for the ticks of the timeout, the echo test panics,
  -- or it returns and what arrived begins with the ping.
  pub smoke_total :
      (fuel : ℕ) (t : T)
      → timeout_ticks + 2 ≤ fuel
      → (smoke tcp fuel t ≡ panicked)
        ⊎ ((s : Smoke T) × (smoke tcp fuel t ≡ returned s) × (take (length ping) s.buf ≡ ping))
  unfolding smoke
  smoke_total fuel t enough = Ends-cases (smoke tcp fuel t) (
      rw h.reads (
        smoke_loop-Ends fuel (h.time t)
          (record { socket = (tcp.mtime t).1; sent = false; buf = [] })
          (omega (arith, h.mtime_takes t)) (omega (arith, h.mtime_takes t))
          (omega (arith, h.mtime_takes t))))
