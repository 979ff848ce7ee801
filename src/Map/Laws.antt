-- ===== src/Map/Laws.antt =====
-- What a reader of a map sees after each operation.
use apex_os_rv.Prelude.{
  ◌≡◌, refl, ap, unwrap_or, subst, Bool, true, false, Option, none, some, [], ◌∷◌, Eq, ◌==◌, arith,
  if◌then◌else◌,
}
use apex_os_rv.Map.Defs.{Map, get, insert, remove, retain}

abbrev pub passing {ℓ κ} : {K : Type ℓ} {V : Type κ} → (K → V → Bool) → K → Option V → Option V
passing f k none = none
passing f k (some v) = if f k v then some v else none

module _ {ℓ κ} {K : Type ℓ} {V : Type κ} ⦃e : Eq K⦄ where
  pub get-insert :
      (k j : K) (v : V) (m : Map K V) → get j (insert k v m) ≡ (if k == j then some v else get j m)
  unfolding get insert
  get-insert k j v [] = refl
  get-insert k j v ((i, w) ∷ m) =
      ground (arith, e.decides k j, e.decides i k, e.decides i j, get-insert k j v m)

  pub get-remove : (k j : K) (m : Map K V) → get j (remove k m) ≡ (if k == j then none else get j m)
  unfolding get remove
  get-remove k j [] = ground arith
  get-remove k j ((i, w) ∷ m) =
      ground (arith, e.decides k j, e.decides i k, e.decides i j, get-remove k j m)

  pub get-retain :
      (f : K → V → Bool) (j : K) (m : Map K V) → get j (retain f m) ≡ passing f j (get j m)
  unfolding get retain
  get-retain f j [] = refl
  get-retain f j ((i, w) ∷ m) =
      ground (arith, e.decides i j, get-remove i j (retain f m), get-retain f j m)

pub passing-eq-some {ℓ κ} :
    {K : Type ℓ} {V : Type κ} (f : K → V → Bool) (k : K) (o : Option V) {v : V}
    → passing f k o ≡ some v
    → (o ≡ some v) × (f k v ≡ true)
passing-eq-some f k none h = absurd (ground arith)
passing-eq-some f k (some u) {v} h = go (f k u) refl h
  where
    go :
        (b : Bool)
        → f k u ≡ b
        → (if b then some u else none) ≡ some v
        → (some u ≡ some v) × (f k v ≡ true)
    go true e p = (p, subst (λ x. f k x ≡ true) (ap (λ o. unwrap_or o u) p) e)
    go false e p = absurd (ground arith)
