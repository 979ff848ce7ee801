-- ===== src/State/Walk.antt =====
-- The loop of `subtree` as a queue, and what it collects (agent-core/src/state.rs).
use mathlib.Core.List.{Memᴰ}
use mathlib.Core.List.Memᴰ
use apex_os_rv.Prelude.{
  ℕ, zero, suc, ◌+◌, ◌≡◌, ◌↔◌, ◌⊎◌, refl, ap, sym, subst, ◌∙◌, true, false, Option, none, some,
  List, [], ◌∷◌, ◌++◌, append-nil, append_assoc, length, length-append, get_elem?, ltb, unwrap_or,
  arith, inl, inr,
}
use apex_os_rv.Protocol.Wire.{Wire, SessionId}
use apex_os_rv.State.{SystemState, kids, subtree_loop, subtree}
use apex_os_rv.State.Tree.{Below, self, spawned}

module _ {w : Wire} (s : SystemState w) where
  -- `done` was walked over, and `pending` waits.
  unfoldable pub queue : ℕ → List SessionId → List SessionId → Option (List SessionId)
  queue fuel done [] = some done
  queue zero done (x ∷ pending) = none
  queue (suc fuel) done (x ∷ pending) = queue fuel (done ++ x ∷ []) (pending ++ kids s x)

  get_elem?-middle :
      (done : List SessionId) (x : SessionId) (rest : List SessionId)
      → get_elem? (done ++ x ∷ rest) (length done) ≡ some x
  get_elem?-middle [] x rest = refl
  get_elem?-middle (y ∷ done) x rest = get_elem?-middle done x rest

  at_end : (done : List SessionId) → ltb (length done) (length (done ++ [])) ≡ false
  at_end done = ground (arith, length-append done [])

  inside :
      (done : List SessionId) (x : SessionId) (rest : List SessionId)
      → ltb (length done) (length (done ++ x ∷ rest)) ≡ true
  inside done x rest = ground (arith, length-append done (x ∷ rest))

  regroup :
      (done : List SessionId) (x : SessionId) (pending more : List SessionId)
      → (done ++ x ∷ pending) ++ more ≡ (done ++ x ∷ []) ++ (pending ++ more)
  regroup done x pending more =
      append_assoc done (x ∷ pending) more ∙ sym (append_assoc done (x ∷ []) (pending ++ more))

  pub loop-queue :
      (fuel : ℕ) (done pending : List SessionId)
      → subtree_loop s fuel (length done) (done ++ pending) ≡ queue fuel done pending
  unfolding subtree_loop queue
  loop-queue zero done [] = rw (at_end done, append-nil)
  loop-queue (suc fuel) done [] = rw (at_end done, append-nil)
  loop-queue zero done (x ∷ pending) = rw (inside done x pending)
  loop-queue (suc fuel) done (x ∷ pending) =
      let next : length done + 1 ≡ length (done ++ x ∷ []) = sym (length-append done (x ∷ [])) in
      rw
        (
          inside done x pending,
          get_elem?-middle done x pending,
          regroup done x pending (kids s x),
          next,
        )
        (loop-queue fuel (done ++ x ∷ []) (pending ++ kids s x))

  pub subtree-queue : (fuel : ℕ) (r : SessionId) → subtree s fuel r ≡ queue fuel [] (r ∷ [])
  unfolding subtree
  subtree-queue fuel r = loop-queue fuel [] (r ∷ [])

  -- What the queue returns has all that it was given, only sessions below `r`, and is closed.
  pub record IsWalk (r : SessionId) (done pending : List SessionId) : Type 0 where
    pub below : (x : SessionId) → Memᴰ x done ⊎ Memᴰ x pending → Below s r x
    pub closed : (x y : SessionId) → Memᴰ x done → Memᴰ y (kids s x) → Memᴰ y done ⊎ Memᴰ y pending

  step-IsWalk :
      {r : SessionId} (done : List SessionId) (x : SessionId) (pending : List SessionId)
      → IsWalk r done (x ∷ pending)
      → IsWalk r (done ++ x ∷ []) (pending ++ kids s x)
  step-IsWalk done x pending h = record {
    below = λ y m. elim m [
      | inl d ↦ elim (Memᴰ.append_cases done d) [
        | inl old ↦ h.below y (inl old)
        | inr new ↦ h.below y (inr (Memᴰ.head (Memᴰ.eq_of_singleton new)))
      ]
      | inr p ↦ elim (Memᴰ.append_cases pending p) [
        | inl old ↦ h.below y (inr (Memᴰ.tail old))
        | inr new ↦ spawned (h.below x (inr (Memᴰ.head refl))) new
      ]
    ];
    closed = λ a b m k. elim (Memᴰ.append_cases done m) [
      | inl old ↦ elim (h.closed a b old k) [
        | inl d ↦ inl (Memᴰ.append_left (x ∷ []) d)
        | inr p ↦ elim (Memᴰ.cases_cons p) [
          | inl here ↦ inl (Memᴰ.append_right done (Memᴰ.head here))
          | inr later ↦ inr (Memᴰ.append_left (kids s x) later)
        ]
      ]
      | inr new ↦
          inr (
            Memᴰ.append_right pending (subst (λ z. Memᴰ b (kids s z)) (Memᴰ.eq_of_singleton new) k))
    ];
  }

  ended :
      {r : SessionId} (done out : List SessionId)
      → IsWalk r done []
      → ◌≡◌ {A = Option (List SessionId)} (some done) (some out)
      → IsWalk r out [] × ((x : SessionId) → Memᴰ x done ⊎ Memᴰ x [] → Memᴰ x out)
  ended {r} done out h e =
      let same : done ≡ out = ap (λ o. unwrap_or o done) e in
      (
        subst (λ l. IsWalk r l []) same h,
        λ x m. elim m [ inl d ↦ subst (Memᴰ x) same d | inr p ↦ absurd (Memᴰ.not-nil p) ],
      )

  kept :
      {x y : SessionId} (done pending more : List SessionId)
      → Memᴰ y done ⊎ Memᴰ y (x ∷ pending)
      → Memᴰ y (done ++ x ∷ []) ⊎ Memᴰ y (pending ++ more)
  kept {x} done pending more (inl d) = inl (Memᴰ.append_left (x ∷ []) d)
  kept done pending more (inr p) = elim (Memᴰ.cases_cons p) [
    | inl here ↦ inl (Memᴰ.append_right done (Memᴰ.head here))
    | inr later ↦ inr (Memᴰ.append_left more later)
  ]

  queue-IsWalk :
      {r : SessionId} (fuel : ℕ) (done pending out : List SessionId)
      → IsWalk r done pending
      → queue fuel done pending ≡ some out
      → IsWalk r out [] × ((x : SessionId) → Memᴰ x done ⊎ Memᴰ x pending → Memᴰ x out)
  unfolding queue
  queue-IsWalk zero done [] out h e = ended done out h e
  queue-IsWalk (suc fuel) done [] out h e = ended done out h e
  queue-IsWalk zero done (x ∷ pending) out h e = absurd (ground arith)
  queue-IsWalk (suc fuel) done (x ∷ pending) out h e =
      let (walk, covers) =
        queue-IsWalk fuel (done ++ x ∷ []) (pending ++ kids s x) out (step-IsWalk done x pending h)
          e in
      (walk, λ y m. covers y (kept done pending (kids s x) m))

  covered :
      {r : SessionId} (out : List SessionId) {x : SessionId}
      → IsWalk r out []
      → Memᴰ r out
      → Below s r x
      → Memᴰ x out
  covered out h m self = m
  covered out h m (spawned {x} {y} b k) = elim (h.closed x y (covered out h m b) k) [
    | inl d ↦ d
    | inr p ↦ absurd (Memᴰ.not-nil p)
  ]

  start-IsWalk : (r : SessionId) → IsWalk r [] (r ∷ [])
  start-IsWalk r = record {
    below = λ x m. elim m [
      | inl d ↦ absurd (Memᴰ.not-nil d)
      | inr p ↦ subst (Below s r) (sym (Memᴰ.eq_of_singleton p)) self
    ];
    closed = λ x y m k. absurd (Memᴰ.not-nil m);
  }

  -- What `subtree` returns holds a session exactly when the session is below the root.
  pub mem-subtree :
      (fuel : ℕ) (r : SessionId) (out : List SessionId) (x : SessionId)
      → subtree s fuel r ≡ some out
      → Memᴰ x out ↔ Below s r x
  mem-subtree fuel r out x e =
      let (walk, covers) =
        queue-IsWalk fuel [] (r ∷ []) out (start-IsWalk r) (sym (subtree-queue fuel r) ∙ e) in
      (λ m. walk.below x (inl m), covered out walk (covers r (inr (Memᴰ.head refl))))
