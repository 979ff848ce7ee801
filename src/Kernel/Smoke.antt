-- ===== src/Kernel/Smoke.antt =====
-- The echo smoke test (kernel/src/net/smoke.rs, `run`), behind the set-up of the interface and of the
-- socket, over the calls of smoltcp and of the timer, which are parameters. What it returns is the state
-- in which the kernel ends with the passing word; a panic ends it with the failing one.
pub mod Ends
use apex_os_rv.Prelude.{
  ℕ, zero, suc, ◌+◌, ◌-◌, ◌*◌, ◌/◌, Bool, true, false, not, ◌&&◌, Option, List, [], ◌∷◌, ◌++◌, take,
  length, ltb, leb, Text, codes, ◌==◌, list_eq, nat_eq, Outcome, returned, panicked, out_of_fuel,
  and_then, expect, if◌then◌else◌,
}
use apex_os_rv.Kernel.Watchdog.{u64, wrapping_sub, ticks_per_sec}

abbrev pub ping : Text
ping = codes "apexos-rv: ping over tcp\n"

abbrev pub timeout_ticks : ℕ
timeout_ticks = 10 * ticks_per_sec

-- The interface with its socket, and the timer. `send_slice` says how many bytes it took, `recv_slice`
-- hands out so many bytes at most; an error is none.
pub record EchoTcp (T : Type 0) : Type 0 where
  pub poll : T → T
  pub can_send : T → Bool
  pub send_slice : List ℕ → T → Option (ℕ × T)
  pub can_recv : T → Bool
  pub recv_slice : ℕ → T → Option (List ℕ × T)
  pub close : T → T
  pub mtime : T → ℕ × T
  pub wait : ℕ → T → T

-- The variables of the loop; `buf` is its first `echoed` bytes.
pub record Smoke (T : Type 0) : Type 0 where
  pub socket : T
  pub sent : Bool
  pub buf : List ℕ

-- How a round ends.
pub data Step (T : Type 0) : Type 0 where
  passes : Smoke T → Step T
  goes_on : Smoke T → Step T

module _ {T : Type 0} (tcp : EchoTcp T) where
  unfoldable pub send_ping : Smoke T → Outcome (Smoke T)
  send_ping s =
      if not s.sent && tcp.can_send s.socket
      then and_then (expect (tcp.send_slice ping s.socket))
          (λ r. returned (record s { socket = r.1; sent = true }))
      else returned s

  -- What arrived so far, against the ping.
  unfoldable pub judge : Smoke T → Outcome (Step T)
  judge s =
      if leb (length ping) (length s.buf)
      then (if take (length ping) s.buf == ping
          then returned (passes (record s { socket = tcp.close s.socket }))
          else panicked)
      else returned (goes_on s)

  unfoldable pub take_echo : Smoke T → Outcome (Step T)
  take_echo s =
      if s.sent && tcp.can_recv s.socket
      then and_then (expect (tcp.recv_slice (64 - length s.buf) s.socket))
          (λ r. judge (record s { socket = r.1; buf = s.buf ++ r.0 }))
      else returned (goes_on s)

  -- The body of the loop, up to the idle.
  unfoldable pub smoke_round : ℕ → Smoke T → Outcome (Step T)
  smoke_round start s =
      let (now, t) = tcp.mtime s.socket in
      if ltb timeout_ticks (wrapping_sub now start)
      then panicked
      else and_then (send_ping (record s { socket = tcp.poll t })) take_echo

  unfoldable pub idle : Smoke T → Smoke T
  idle s =
      let (now, t) = tcp.mtime s.socket in
      record s { socket = tcp.wait (u64 (now + ticks_per_sec / 1000)) t }

  -- The end of a round, with the rounds behind it.
  abbrev pub and_on : (Smoke T → Outcome (Smoke T)) → Step T → Outcome (Smoke T)
  and_on rest (passes s) = returned s
  and_on rest (goes_on s) = rest (idle s)

  unfoldable pub smoke_loop : ℕ → ℕ → Smoke T → Outcome (Smoke T)
  smoke_loop zero start s = out_of_fuel
  smoke_loop (suc fuel) start s = and_then (smoke_round start s) (and_on (smoke_loop fuel start))

  unfoldable pub smoke : ℕ → T → Outcome (Smoke T)
  smoke fuel t =
      let (start, t') = tcp.mtime t in
      smoke_loop fuel start (record { socket = t'; sent = false; buf = [] })
