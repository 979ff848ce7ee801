-- ===== src/Kernel/Link.antt =====
-- The bytes under the mesh session (`Mesh::pump`, `idle_tick` and `blocking_send_raw`,
-- kernel/src/net/mesh.rs), over the calls of smoltcp and of the timer, which are parameters.
pub mod Total
pub mod Sends
pub mod Stuck
use apex_os_rv.Prelude.{
  ℕ, zero, suc, ◌+◌, Bool, true, false, Option, none, some, List, [], ◌++◌, drop, length, ltb,
  Outcome, returned, panicked, out_of_fuel, and_then, expect, if◌then◌else◌,
}
use apex_os_rv.Kernel.Watchdog.{u64, ticks_per_sec}
use apex_os_rv.Kernel.Session.{Stream}

-- The interface with its socket, and the timer. `recv` hands out a buffer and takes all of it,
-- `send_slice` says how many bytes it took, where `none` is an error, `mtime` reads the timer, a
-- u64, and `wait` arms a deadline and sleeps.
pub record Tcp (T : Type 0) : Type 0 where
  pub poll : T → T
  pub can_recv : T → Bool
  pub recv : T → List ℕ × T
  pub can_send : T → Bool
  pub send_slice : List ℕ → T → Option (ℕ × T)
  pub close : T → T
  pub mtime : T → ℕ × T
  pub wait : ℕ → T → T

abbrev pub establish_timeout : ℕ
establish_timeout = 100000000

-- A millisecond.
abbrev pub tick : ℕ
tick = 10000

module _ {T : Type 0} (tcp : Tcp T) where
  unfoldable pub nap : T → T
  nap t = let (now, t') = tcp.mtime t in tcp.wait (u64 (now + tick)) t'

  unfoldable pub idle_tick : ℕ → T → Outcome T
  unfolding nap
  idle_tick deadline t =
      let (now, t') = tcp.mtime t in if ltb deadline now then panicked else returned (nap t')

  -- The `while` loop of `pump`, with the bytes that it appends.
  unfoldable pub drain : ℕ → T → Outcome (List ℕ × T)
  drain zero t = if tcp.can_recv t then out_of_fuel else returned ([], t)
  drain (suc fuel) t =
      let (buffer, t') = tcp.recv t in
      let rest = drain fuel t' in
      if tcp.can_recv t
      then and_then rest (λ more. returned (buffer ++ more.0, more.1))
      else returned ([], t)

  unfoldable pub pump : ℕ → T → Outcome (List ℕ × T)
  unfolding drain
  pump fuel t = drain fuel (tcp.poll t)

  -- The first half of a round of the sending loop, from the offset `off`.
  unfoldable pub send_some : List ℕ → ℕ → T → Outcome (ℕ × T)
  send_some bytes off t =
      let polled = tcp.poll t in
      if tcp.can_send polled
      then and_then (expect (tcp.send_slice (drop off bytes) polled))
          (λ sent. returned (off + sent.0, sent.1))
      else returned (off, polled)

  -- The second half.
  unfoldable pub idle_unless_done : ℕ → List ℕ → ℕ × T → Outcome (ℕ × T)
  idle_unless_done deadline bytes (off, t) =
      if ltb off (length bytes)
      then and_then (idle_tick deadline t) (λ t'. returned (off, t'))
      else returned (off, t)

  unfoldable pub send_round : ℕ → List ℕ → ℕ → T → Outcome (ℕ × T)
  send_round deadline bytes off t =
      and_then (send_some bytes off t) (idle_unless_done deadline bytes)

  unfoldable pub send_loop : ℕ → ℕ → List ℕ → ℕ → T → Outcome T
  send_loop zero deadline bytes off t =
      if ltb off (length bytes) then out_of_fuel else returned (tcp.poll t)
  send_loop (suc fuel) deadline bytes off t =
      let rest =
        and_then (send_round deadline bytes off t)
          (λ (off', t'). send_loop fuel deadline bytes off' t') in
      if ltb off (length bytes) then rest else returned (tcp.poll t)

  unfoldable pub blocking_send_raw : ℕ → List ℕ → T → Outcome T
  blocking_send_raw fuel bytes t =
      let (now, t') = tcp.mtime t in send_loop fuel (u64 (now + establish_timeout)) bytes 0 t'

  -- The session's stream, with fuel for `pump` by the state and for sending.
  abbrev pub tcp_stream : (T → ℕ) → ℕ → Stream T
  tcp_stream pump_fuel send_fuel = record {
    pump = λ t. pump (pump_fuel t) t;
    blocking_send_raw = blocking_send_raw send_fuel;
    idle_tick = idle_tick;
    mtime = tcp.mtime;
    nap = nap;
    poll = tcp.poll;
    close = tcp.close;
  }
