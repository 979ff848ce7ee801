-- ===== src/Prelude/Chain.antt =====
-- What a call comes to that may panic, which ends the kernel, and that goes by fuel.
use mathlib.Core.Path.{◌≡◌, refl, ap}
use mathlib.Core.Option.{Option, none, some}
use mathlib.Core.Logic.{◌≢◌, ◌⊎◌, inl, inr}
use native.Mathlib.Omega.{arith}

pub data Outcome (A : Type 0) : Type 0 where
  returned : A → Outcome A
  panicked : Outcome A
  out_of_fuel : Outcome A

-- The call that goes on with what another one returned.
abbrev pub and_then : {A B : Type 0} → Outcome A → (A → Outcome B) → Outcome B
and_then (returned a) f = f a
and_then panicked f = panicked
and_then out_of_fuel f = out_of_fuel

-- A chain that does not run out of fuel in any of its calls.
pub and_then_total :
    {A B : Type 0} (o : Outcome A) (f : A → Outcome B)
    → o ≢ out_of_fuel
    → ((a : A) → o ≡ returned a → f a ≢ out_of_fuel)
    → and_then o f ≢ out_of_fuel
and_then_total (returned a) f h k = k a refl
and_then_total panicked f h k = λ e. cc
and_then_total out_of_fuel f h k = absurd (h refl)

-- What returned, where the chain did.
pub and_then-returned :
    {A B : Type 0} (o : Outcome A) (f : A → Outcome B) (b : B)
    → and_then o f ≡ returned b
    → (a : A) × (o ≡ returned a) × (f a ≡ returned b)
and_then-returned (returned a) f b e = (a, refl, e)
and_then-returned panicked f b e = absurd (ground arith)
and_then-returned out_of_fuel f b e = absurd (ground arith)

value_or : {A : Type 0} → A → Outcome A → A
value_or d (returned a) = a
value_or d _ = d

pub returned_inj : {A : Type 0} {a b : A} → returned a ≡ returned b → a ≡ b
unfolding value_or
returned_inj {a = a} e = ap (value_or a) e

-- `expect`
abbrev pub expect : {A : Type 0} → Option A → Outcome A
expect none = panicked
expect (some a) = returned a

pub expect_total : {A : Type 0} (o : Option A) → expect o ≢ out_of_fuel
expect_total none = λ e. cc
expect_total (some a) = λ e. cc

pub expect-returned : {A : Type 0} (o : Option A) (a : A) → expect o ≡ returned a → o ≡ some a
expect-returned none a e = absurd (ground arith)
expect-returned (some b) a e = ap some (returned_inj e)

-- A call that does not run out of fuel.
pub Outcome-cases :
    {A : Type 0} (o : Outcome A) → o ≢ out_of_fuel → ((a : A) × (o ≡ returned a)) ⊎ (o ≡ panicked)
Outcome-cases (returned a) h = inl (a, refl)
Outcome-cases panicked h = inr refl
Outcome-cases out_of_fuel h = absurd (h refl)
