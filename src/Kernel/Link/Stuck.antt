-- ===== src/Kernel/Link/Stuck.antt =====
-- A socket that never takes a byte (`Mesh::blocking_send_raw` and `close_clean`,
-- kernel/src/net/mesh.rs).
use apex_os_rv.Prelude.{
  ℕ, zero, suc, ◌+◌, ◌*◌, ◌<◌, ◌≤◌, ◌≡◌, ◌≢◌, refl, true, false, some, List, ◌∷◌, length, ltb,
  lt→ltb, returned, panicked, and_then-returned, returned_inj, ap, sym, ◌∙◌, Bool-cases, inl, inr,
  arith,
}
use apex_os_rv.Kernel.Watchdog.{u64}
use apex_os_rv.Kernel.Session.{WebSocket, Mesh}
use apex_os_rv.Kernel.Session.Client.{close_clean}
use apex_os_rv.Kernel.Link.{
  Tcp, establish_timeout, idle_tick, send_some, idle_unless_done, send_round, send_loop,
  blocking_send_raw, tcp_stream,
}
use apex_os_rv.Kernel.Link.Total.{IsTimed, slow, blocking_send_raw_total}

module _ {T : Type 0} (tcp : Tcp T) (never : (t : T) → tcp.can_send t ≡ false) where
  send_some-stuck :
      (bytes : List ℕ) (off : ℕ) (t : T) → send_some tcp bytes off t ≡ returned (off, tcp.poll t)
  unfolding send_some
  send_some-stuck bytes off t = rw (never (tcp.poll t)) refl

  idle_unless_done-offset :
      (deadline : ℕ) (bytes : List ℕ) (off : ℕ) (t : T) (r : ℕ × T)
      → idle_unless_done tcp deadline bytes (off, t) ≡ returned r
      → r.0 ≡ off
  unfolding idle_unless_done
  idle_unless_done-offset deadline bytes off t r e = elim (Bool-cases (ltb off (length bytes))) [
    | inl left ↦
        let (t', ticked, same) = and_then-returned (idle_tick tcp deadline t) _ r (rw left at e) in
        ap (λ x. x.0) (sym (returned_inj same))
    | inr done ↦ ap (λ x. x.0) (sym (returned_inj (rw done at e)))
  ]

  send_round-offset :
      (deadline : ℕ) (bytes : List ℕ) (off : ℕ) (t : T) (r : ℕ × T)
      → send_round tcp deadline bytes off t ≡ returned r
      → r.0 ≡ off
  unfolding send_round
  send_round-offset deadline bytes off t r e =
      idle_unless_done-offset deadline bytes off (tcp.poll t) r
        (rw (send_some-stuck bytes off t) at e)

  send_loop-stuck :
      (fuel deadline : ℕ) (b : ℕ) (bytes : List ℕ) (off : ℕ) (t t' : T)
      → off ≡ 0
      → send_loop tcp fuel deadline (b ∷ bytes) off t ≢ returned t'
  unfolding send_loop
  send_loop-stuck zero deadline b bytes off t t' z =
      let left : ltb off (length (b ∷ bytes)) ≡ true =
        lt→ltb off (length (b ∷ bytes)) (omega (arith, z)) in
      rw left (λ e. cc)
  send_loop-stuck (suc fuel) deadline b bytes off t t' z = λ e.
      let left : ltb off (length (b ∷ bytes)) ≡ true =
        lt→ltb off (length (b ∷ bytes)) (omega (arith, z)) in
      let (r, a_round, more) =
        and_then-returned (send_round tcp deadline (b ∷ bytes) off t) _ t' (rw left at e) in
      send_loop-stuck fuel deadline b bytes r.0 r.1 t'
        (send_round-offset deadline (b ∷ bytes) off t r a_round ∙ z) more

  module _ (timed : IsTimed tcp) (send_fuel : ℕ) (sends : establish_timeout + 2 ≤ send_fuel) where
    blocking_send_raw-stuck :
        (b : ℕ) (bytes : List ℕ) (t : T)
        → u64 (timed.time t) + establish_timeout + 8 * slow < 18446744073709551616
        → blocking_send_raw tcp send_fuel (b ∷ bytes) t ≡ panicked
    unfolding blocking_send_raw
    blocking_send_raw-stuck b bytes t ahead =
        elim (blocking_send_raw_total tcp send_fuel (b ∷ bytes) t timed ahead sends) [
          | inr stops ↦ stops
          | inl (t', e) ↦ absurd (
              send_loop-stuck send_fuel (u64 ((tcp.mtime t).0 + establish_timeout)) b bytes 0
                (tcp.mtime t).1 t' refl e)
        ]

    -- Over a socket that never can send, where every call takes a sixteenth of the timer's range
    -- at most and every wait a tick at least, with a timer that does not wrap within the timeout
    -- and half its range from now, and fuel for the ticks of the timeout: a clean close whose
    -- close frame is not empty panics.
    pub close_clean-stuck :
        {Ws : Type 0} (web : WebSocket Ws) (pump_fuel : T → ℕ) (fuel : ℕ) (mesh : Mesh Ws T) (b : ℕ)
        (frame : List ℕ) (ws : Ws)
        → u64 (timed.time mesh.link) + establish_timeout + 8 * slow < 18446744073709551616
        → web.write_close mesh.ws ≡ some (b ∷ frame, ws)
        → close_clean web (tcp_stream tcp pump_fuel send_fuel) fuel mesh ≡ panicked
    unfolding close_clean
    close_clean-stuck web pump_fuel fuel mesh b frame ws ahead e =
        rw e (rw (blocking_send_raw-stuck b frame mesh.link ahead) refl)
