-- ===== src/Kernel/Link/Sends.antt =====
-- What the socket has taken when the sending returns (`Mesh::blocking_send_raw`, kernel/src/net/mesh.rs).
use apex_os_rv.Prelude.{
  ℕ, zero, suc, ◌+◌, ◌≤◌, ◌≡◌, refl, false, some, List, [], ◌∷◌, ◌++◌, append_assoc, append-nil,
  drop, take, length, ltb, ltb_false→le, returned, and_then-returned, returned_inj, expect,
  expect-returned, subst, ap, sym, ◌∙◌, Bool-cases, inl, inr, arith,
}
use apex_os_rv.Kernel.Watchdog.{u64}
use apex_os_rv.Kernel.Link.{
  Tcp, establish_timeout, nap, idle_tick, send_some, idle_unless_done, send_round, send_loop,
  blocking_send_raw,
}

-- What the socket took, over its whole life; only sending adds to it.
pub record HasAccepted {T : Type 0} (tcp : Tcp T) : Type 0 where
  pub accepted : T → List ℕ
  pub after_poll : (t : T) → accepted (tcp.poll t) ≡ accepted t
  pub after_mtime : (t : T) → accepted (tcp.mtime t).1 ≡ accepted t
  pub after_wait : (deadline : ℕ) (t : T) → accepted (tcp.wait deadline t) ≡ accepted t
  pub after_send :
      (bytes : List ℕ) (t : T) (n : ℕ) (t' : T)
      → tcp.send_slice bytes t ≡ some (n, t')
      → (n ≤ length bytes) × (accepted t' ≡ accepted t ++ take n bytes)

take-append-drop : (n : ℕ) (xs : List ℕ) → take n xs ++ drop n xs ≡ xs
take-append-drop zero xs = refl
take-append-drop (suc n) [] = refl
take-append-drop (suc n) (x ∷ xs) = ap (λ ys. x ∷ ys) (take-append-drop n xs)

drop-nil : (n : ℕ) → drop {A = ℕ} n [] ≡ []
drop-nil zero = refl
drop-nil (suc n) = refl

drop-all : (n : ℕ) (xs : List ℕ) → length xs ≤ n → drop n xs ≡ []
drop-all zero [] h = refl
drop-all zero (x ∷ xs) h = absurd (omega arith)
drop-all (suc n) [] h = refl
drop-all (suc n) (x ∷ xs) h = drop-all n xs (omega arith)

drop-drop : (n off : ℕ) (xs : List ℕ) → drop (off + n) xs ≡ drop n (drop off xs)
drop-drop n zero xs = ap (λ k. drop k xs) (omega arith)
drop-drop n (suc off) [] = drop-nil (suc off + n) ∙ sym (drop-nil n)
drop-drop n (suc off) (x ∷ xs) =
    ap (λ k. drop k (x ∷ xs)) {x = suc off + n} {y = suc (off + n)} (omega arith)
    ∙ drop-drop n off xs

module _ {T : Type 0} (tcp : Tcp T) (h : HasAccepted tcp) where
  -- The bytes that the socket took, and those still to be sent, come to `all`.
  Holds : List ℕ → List ℕ → ℕ × T → Type 0
  Holds all bytes (off, t) = h.accepted t ++ drop off bytes ≡ all

  send_some-Holds :
      (all bytes : List ℕ) (off : ℕ) (t : T) (r : ℕ × T)
      → Holds all bytes (off, t)
      → send_some tcp bytes off t ≡ returned r
      → Holds all bytes r
  unfolding send_some Holds
  send_some-Holds all bytes off t r kept e = elim (Bool-cases (tcp.can_send (tcp.poll t))) [
    | inl able ↦
        let (sent, taken, same) =
          and_then-returned (expect (tcp.send_slice (drop off bytes) (tcp.poll t))) _ r
            (rw able at e) in
        let (fits, grown) =
          h.after_send (drop off bytes) (tcp.poll t) sent.0 sent.1 (expect-returned _ sent taken) in
        subst (Holds all bytes) (returned_inj same) (
          ap (λ a. a ++ drop (off + sent.0) bytes) grown
          ∙ append_assoc (h.accepted (tcp.poll t)) (take sent.0 (drop off bytes))
              (drop (off + sent.0) bytes)
          ∙ ap (λ rest. h.accepted (tcp.poll t) ++ (take sent.0 (drop off bytes) ++ rest))
              (drop-drop sent.0 off bytes)
          ∙ ap (λ d. h.accepted (tcp.poll t) ++ d) (take-append-drop sent.0 (drop off bytes))
          ∙ ap (λ a. a ++ drop off bytes) (h.after_poll t)
          ∙ kept)
    | inr full ↦ subst (Holds all bytes) (returned_inj (rw full at e)) (rw h.after_poll kept)
  ]

  after_nap : (t : T) → h.accepted (nap tcp t) ≡ h.accepted t
  unfolding nap
  after_nap t = h.after_wait (u64 ((tcp.mtime t).0 + 10000)) (tcp.mtime t).1 ∙ h.after_mtime t

  idle_tick-accepted :
      (deadline : ℕ) (t t' : T)
      → idle_tick tcp deadline t ≡ returned t'
      → h.accepted t' ≡ h.accepted t
  unfolding idle_tick
  idle_tick-accepted deadline t t' e = elim (Bool-cases (ltb deadline (tcp.mtime t).0)) [
    | inl late ↦ absurd (ground (arith, e, late))
    | inr early ↦
        ap h.accepted (sym (returned_inj (rw early at e)))
        ∙ after_nap (tcp.mtime t).1
        ∙ h.after_mtime t
  ]

  idle_unless_done-Holds :
      (deadline : ℕ) (all bytes : List ℕ) (r r' : ℕ × T)
      → Holds all bytes r
      → idle_unless_done tcp deadline bytes r ≡ returned r'
      → Holds all bytes r'
  unfolding idle_unless_done Holds
  idle_unless_done-Holds deadline all bytes (off, t) r' kept e =
      elim (Bool-cases (ltb off (length bytes))) [
        | inl left ↦
            let (t', ticked, same) =
              and_then-returned (idle_tick tcp deadline t) _ r' (rw left at e) in
            subst (Holds all bytes) (returned_inj same)
              (ap (λ a. a ++ drop off bytes) (idle_tick-accepted deadline t t' ticked) ∙ kept)
        | inr done ↦ subst (Holds all bytes) (returned_inj (rw done at e)) kept
      ]

  all_sent :
      (all bytes : List ℕ) (off : ℕ) (t t' : T)
      → Holds all bytes (off, t)
      → ltb off (length bytes) ≡ false
      → tcp.poll t ≡ t'
      → h.accepted t' ≡ all
  unfolding Holds
  all_sent all bytes off t t' kept done e =
      ap h.accepted (sym e)
      ∙ h.after_poll t
      ∙ sym (append-nil (h.accepted t))
      ∙ ap (λ d. h.accepted t ++ d)
          (sym (drop-all off bytes (ltb_false→le off (length bytes) done)))
      ∙ kept

  send_loop-accepted :
      (fuel deadline : ℕ) (all bytes : List ℕ) (off : ℕ) (t t' : T)
      → Holds all bytes (off, t)
      → send_loop tcp fuel deadline bytes off t ≡ returned t'
      → h.accepted t' ≡ all
  unfolding send_loop send_round
  send_loop-accepted zero deadline all bytes off t t' kept e =
      elim (Bool-cases (ltb off (length bytes))) [
        | inl left ↦ absurd (ground (arith, e, left))
        | inr done ↦ all_sent all bytes off t t' kept done (returned_inj (rw done at e))
      ]
  send_loop-accepted (suc fuel) deadline all bytes off t t' kept e =
      elim (Bool-cases (ltb off (length bytes))) [
        | inl left ↦
            let (r, a_round, more) =
              and_then-returned (send_round tcp deadline bytes off t) _ t' (rw left at e) in
            let (mid, some_sent, idled) =
              and_then-returned (send_some tcp bytes off t) _ r a_round in
            send_loop-accepted fuel deadline all bytes r.0 r.1 t'
              (idle_unless_done-Holds deadline all bytes mid r
                (send_some-Holds all bytes off t mid kept some_sent) idled)
              more
        | inr done ↦ all_sent all bytes off t t' kept done (returned_inj (rw done at e))
      ]

  -- Where the socket takes a prefix of what it is offered and nothing else adds to what it took:
  -- when the sending returns, the socket has taken exactly the bytes that were to be sent, behind
  -- what it had taken before, whatever the fuel.
  pub blocking_send_raw-accepted :
      (fuel : ℕ) (bytes : List ℕ) (t t' : T)
      → blocking_send_raw tcp fuel bytes t ≡ returned t'
      → h.accepted t' ≡ h.accepted t ++ bytes
  unfolding blocking_send_raw Holds
  blocking_send_raw-accepted fuel bytes t t' e =
      send_loop-accepted fuel (u64 ((tcp.mtime t).0 + establish_timeout)) (h.accepted t ++ bytes)
        bytes 0 (tcp.mtime t).1 t' (ap (λ a. a ++ bytes) (h.after_mtime t)) e
