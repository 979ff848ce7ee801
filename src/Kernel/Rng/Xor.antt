-- ===== src/Kernel/Rng/Xor.antt =====
-- Laws of the exclusive or.
use Prim.Native.Nat.{bit_xor, digits, differ, bit_xor-bitwise}
use apex_os_rv.Prelude.{ℕ, zero, suc, ◌/◌, ◌%◌, ◌^◌, ◌≤◌, ◌<◌, ◌≡◌, refl, arith}

differ_digits : (p q : ℕ) → p ≤ 1 → q ≤ 1 → (differ p q ≤ 1) × (differ p q ≡ 0 → p ≡ q)
differ_digits zero q h k = (k, λ e. omega (arith, e))
differ_digits (suc zero) zero h k = (h, λ e. e)
differ_digits (suc zero) (suc zero) h k = (omega arith, λ e. refl)
differ_digits (suc zero) (suc (suc q)) h k = absurd (omega arith)
differ_digits (suc (suc p)) q h k = absurd (omega arith)

-- The digits of a difference are digits, and zero at equal digits only.
differ-digits :
    (x y : ℕ) → (differ (x % 2) (y % 2) ≤ 1) × (differ (x % 2) (y % 2) ≡ 0 → x % 2 ≡ y % 2)
differ-digits x y = differ_digits (x % 2) (y % 2) (omega arith) (omega arith)

abbrev pub xor_digits : ℕ → ℕ → ℕ → ℕ
xor_digits n a b = digits (λ b. b) differ n a b

xor_digits-zero : (n a b : ℕ) → a ≤ n → xor_digits n a b ≡ 0 → a ≡ b
xor_digits-zero zero zero b h e = omega (arith, e)
xor_digits-zero zero (suc a) b h e = absurd (omega arith)
xor_digits-zero (suc n) zero b h e = omega (arith, e)
xor_digits-zero (suc n) (suc a) b h e =
    let high = xor_digits-zero n (suc a / 2) (b / 2) (omega arith) (omega (arith, e)) in
    let low = (differ-digits (suc a) b).1 (omega (arith, e)) in omega (arith, high, low)

xor_digits-width : (n a b w : ℕ) → a < 2 ^ w → b < 2 ^ w → xor_digits n a b < 2 ^ w
xor_digits-width zero a b w h k = k
xor_digits-width (suc n) zero b w h k = k
xor_digits-width (suc n) (suc a) b zero h k = absurd (omega arith)
xor_digits-width (suc n) (suc a) b (suc w) h k = omega (
  arith,
  xor_digits-width n (suc a / 2) (b / 2) w (omega arith) (omega arith),
  (differ-digits (suc a) b).0,
)

pub bit_xor-zero : (a b : ℕ) → bit_xor a b ≡ 0 → a ≡ b
bit_xor-zero a b e = xor_digits-zero a a b (omega arith) (omega (arith, e, bit_xor-bitwise a b))

pub bit_xor-width : (a b w : ℕ) → a < 2 ^ w → b < 2 ^ w → bit_xor a b < 2 ^ w
bit_xor-width a b w h k = omega (arith, bit_xor-bitwise a b, xor_digits-width a a b w h k)
