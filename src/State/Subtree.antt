-- ===== src/State/Subtree.antt =====
-- When the loop of `subtree` ends (agent-core/src/state.rs).
use mathlib.Core.List.{Memᴰ}
use mathlib.Core.List.Memᴰ
use apex_os_rv.Prelude.{
  ℕ, zero, suc, ◌+◌, ◌≤◌, ◌<◌, ◌≡◌, ◌≢◌, ◌↔◌, refl, ap, sym, subst, ◌∙◌, none, some, List, [], ◌∷◌,
  ◌++◌, length, length-append, nat_eq, ◌==◌, eqb_ne, eqb_refl, arith, if◌then◌else◌, inl, inr,
}
use apex_os_rv.Map
use apex_os_rv.Protocol.Wire.{Wire, SessionId}
use apex_os_rv.Protocol.Event.{Event}
use apex_os_rv.State.{SystemState, default, apply, register_child, kids, subtree}
use apex_os_rv.State.Tree.{Below, kids-apply, kids-register_self, mem-kids-register_child}
use apex_os_rv.State.Walk.{queue, subtree-queue, mem-subtree}

-- The sum of `f` over a list.
abbrev total : (ℕ → ℕ) → List ℕ → ℕ
total f [] = 0
total f (x ∷ xs) = f x + total f xs

total-append : (f : ℕ → ℕ) (xs ys : List ℕ) → total f (xs ++ ys) ≡ total f xs + total f ys
total-append f [] ys = omega arith
total-append f (x ∷ xs) ys = omega (arith, total-append f xs ys)

total-eq-zero : (f : ℕ → ℕ) (xs : List ℕ) → ((x : ℕ) → Memᴰ x xs → ⊥) → total f xs ≡ 0
total-eq-zero f [] h = refl
total-eq-zero f (x ∷ xs) h = absurd (h x (Memᴰ.head refl))

total-congr :
    (f g : ℕ → ℕ) (xs : List ℕ) → ((x : ℕ) → Memᴰ x xs → f x ≡ g x) → total f xs ≡ total g xs
total-congr f g [] h = refl
total-congr f g (x ∷ xs) h =
    omega (arith, h x (Memᴰ.head refl), total-congr f g xs (λ y m. h y (Memᴰ.tail m)))

module _ {w : Wire} where
  -- The spawn graph has no cycle: a session ranks below all that it spawned, up to a bound.
  pub record IsRanked (s : SystemState w) : Type 0 where
    pub rank : SessionId → ℕ
    pub bound : ℕ
    pub climbs : (x y : SessionId) → Memᴰ y (kids s x) → (rank x < rank y) × (rank y ≤ bound)

  pub default-IsRanked : IsRanked (default w)
  unfolding kids Map.get
  default-IsRanked = record { rank = λ x. 0; bound = 0; climbs = λ x y m. absurd (Memᴰ.not-nil m) }

  pub apply-IsRanked : (s : SystemState w) (e : Event w) → IsRanked s → IsRanked (apply s e)
  apply-IsRanked s e h = record {
    rank = h.rank;
    bound = h.bound;
    climbs = λ x y m. h.climbs x y (subst (Memᴰ y) (kids-apply s e x) m);
  }

  -- A child that is not its own parent closes no cycle in a spawn graph without one, also if it
  -- was a session before.
  pub register_child-IsRanked :
      (s : SystemState w) (c parent : SessionId)
      → c ≢ parent
      → IsRanked s
      → IsRanked (register_child s c parent)
  register_child-IsRanked s c parent ne h = record {
    rank = λ x. if c == x then h.bound + h.rank parent + 1 else h.rank x;
    bound = h.bound + h.rank parent + 1;
    climbs = λ x y m.
        let (not_child, edge) = mem-kids-register_child s c parent x y ne m in
        elim edge [
          | inl (y_c, x_parent) ↦ rw (y_c, x_parent, eqb_refl, eqb_ne c parent ne) (omega arith)
          | inr old ↦ let up = h.climbs x y old in rw (eqb_ne c x not_child) (ground (arith, up))
        ];
  }

module _ {w : Wire} (s : SystemState w) where
  -- How many sessions the loop walks over at `x`, counted `m` generations deep.
  unfoldable pub size : ℕ → SessionId → ℕ
  size zero x = 1
  size (suc m) x = suc (total (size m) (kids s x))

  -- Beyond the generations that are left below the bound the count changes no more.
  size-suc :
      (h : IsRanked s) (m : ℕ) (x : SessionId) → h.bound ≤ m + h.rank x → size m x ≡ size (suc m) x
  unfolding size
  size-suc h zero x deep =
      omega (arith, total-eq-zero (size zero) (kids s x) (λ y m. omega (arith, h.climbs x y m)))
  size-suc h (suc m) x deep = ap suc (
      total-congr (size m) (size (suc m)) (kids s x)
        (λ y e. size-suc h m y (omega (arith, h.climbs x y e))))

  abbrev pub weight : IsRanked s → SessionId → ℕ
  weight h = size h.bound

  weight-kids : (h : IsRanked s) (x : SessionId) → weight h x ≡ suc (total (weight h) (kids s x))
  unfolding size
  weight-kids h x = size-suc h h.bound x (omega arith)

  -- A round takes one session off and puts its children on, so the weight that waits falls by one.
  queue-total :
      (h : IsRanked s) (fuel : ℕ) (done pending : List SessionId)
      → total (weight h) pending ≤ fuel
      → (out : List SessionId) × (queue s fuel done pending ≡ some out)
        × (length out ≡ length done + total (weight h) pending)
  unfolding queue
  queue-total h zero done [] fits = (done, refl, omega arith)
  queue-total h (suc fuel) done [] fits = (done, refl, omega arith)
  queue-total h zero done (x ∷ pending) fits = absurd (omega (arith, weight-kids h x))
  queue-total h (suc fuel) done (x ∷ pending) fits =
      let split = total-append (weight h) pending (kids s x) in
      let (out, returns, counted) =
        queue-total h fuel (done ++ x ∷ []) (pending ++ kids s x)
          (omega (arith, weight-kids h x, split)) in
      (out, returns, omega (arith, counted, weight-kids h x, split, length-append done (x ∷ [])))

  -- Without a cycle in the spawn graph the loop ends.
  pub subtree_total :
      (r : SessionId) (h : IsRanked s) (fuel : ℕ)
      → weight h r ≤ fuel
      → (out : List SessionId) × (subtree s fuel r ≡ some out)
        × ((x : SessionId) → Memᴰ x out ↔ Below s r x)
  subtree_total r h fuel fits =
      let (out, returns, counted) = queue-total h fuel [] (r ∷ []) (omega arith) in
      let e = subtree-queue s fuel r ∙ returns in (out, e, λ x. mem-subtree s fuel r out x e)

-- The states that events and registrations make of the empty one, where no session is registered as
-- its own child.
pub data Reachable {w : Wire} : SystemState w → Type 0 where
  initial : Reachable (default w)
  applied : {s : SystemState w} (e : Event w) → Reachable s → Reachable (apply s e)
  registered :
      {s : SystemState w} (c parent : SessionId)
      → c ≢ parent
      → Reachable s
      → Reachable (register_child s c parent)

pub Reachable-IsRanked : {w : Wire} {s : SystemState w} → Reachable s → IsRanked s
Reachable-IsRanked initial = default-IsRanked
Reachable-IsRanked (applied {s} e r) = apply-IsRanked s e (Reachable-IsRanked r)
Reachable-IsRanked (registered {s} c parent ne r) =
    register_child-IsRanked s c parent ne (Reachable-IsRanked r)

-- How many sessions the loop of `subtree` walks over, from the root `r` of a reachable state.
abbrev pub rounds : {w : Wire} {s : SystemState w} → Reachable s → SessionId → ℕ
rounds {s} h r = weight s (Reachable-IsRanked h) r

-- In every reachable state, from every root, with fuel for as many rounds as the loop walks over
-- sessions: `subtree` returns, and a session is in what it returns exactly when it is below the
-- root.
pub subtree-Reachable :
    {w : Wire} {s : SystemState w} (r : SessionId) (h : Reachable s) (fuel : ℕ)
    → rounds h r ≤ fuel
    → (out : List SessionId) × (subtree s fuel r ≡ some out)
      × ((x : SessionId) → Memᴰ x out ↔ Below s r x)
subtree-Reachable {s} r h fuel fits = subtree_total s r (Reachable-IsRanked h) fuel fits

-- A session that was registered as its own child makes the loop endless: no fuel is enough.
pub subtree-register_self :
    {w : Wire} (s : SystemState w) (x : SessionId) (fuel : ℕ)
    → subtree (register_child s x x) fuel x ≡ none
unfolding queue
subtree-register_self s x fuel = subtree-queue (register_child s x x) fuel x ∙ spins fuel []
  where
    spins :
        (fuel : ℕ) (done : List SessionId) → queue (register_child s x x) fuel done (x ∷ []) ≡ none
    spins zero done = refl
    spins (suc fuel) done =
        subst (λ more. queue (register_child s x x) fuel (done ++ x ∷ []) more ≡ none)
          (sym (kids-register_self s x)) (spins fuel (done ++ x ∷ []))
