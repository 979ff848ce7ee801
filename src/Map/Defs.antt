-- ===== src/Map/Defs.antt =====
-- The protocol's `Map` alias (vendor/apexos-protocol/src/lib.rs): `BTreeMap` on the metal node. The
-- program only gets, inserts, removes, retains and counts, so the order of the keys is never seen
-- and an association list with at most one entry for a key stands for the map.
use apex_os_rv.Prelude.{ℕ, Bool, Option, none, some, List, [], ◌∷◌, Eq, ◌==◌, length, if◌then◌else◌}

abbrev pub Map {ℓ κ} : Type ℓ → Type κ → Type (ℓ ⊔ κ)
Map K V = List (K × V)

abbrev pub empty {ℓ κ} : {K : Type ℓ} {V : Type κ} → Map K V
empty = []

-- `len`
abbrev pub len {ℓ κ} : {K : Type ℓ} {V : Type κ} → Map K V → ℕ
len m = length m

module _ {ℓ κ} {K : Type ℓ} {V : Type κ} ⦃e : Eq K⦄ where
  unfoldable pub get : K → Map K V → Option V
  get k [] = none
  get k ((j, v) ∷ m) = if j == k then some v else get k m

  -- An insertion under a key that is there replaces the value.
  unfoldable pub insert : K → V → Map K V → Map K V
  insert k v [] = (k, v) ∷ []
  insert k v ((j, w) ∷ m) = if j == k then (k, v) ∷ m else (j, w) ∷ insert k v m

  unfoldable pub remove : K → Map K V → Map K V
  remove k [] = []
  remove k ((j, v) ∷ m) = let rest = remove k m in if j == k then rest else (j, v) ∷ rest

  -- Keeps the entries that pass the test. What is dropped leaves no entry of its key behind.
  unfoldable pub retain : (K → V → Bool) → Map K V → Map K V
  unfolding remove
  retain f [] = []
  retain f ((j, v) ∷ m) = let rest = retain f m in if f j v then (j, v) ∷ rest else remove j rest
