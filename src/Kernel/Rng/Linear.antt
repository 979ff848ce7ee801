-- ===== src/Kernel/Rng/Linear.antt =====
-- The exclusive or, digit by digit, and the shifts that go through it.
use Prim.Native.Nat.{bit_xor, differ, bit_xor-bitwise}
use native.Mathlib.Nat.{mod-lt, mod-eq_of_lt, div-add-mod', add-mul-mod_self_right, mul-add}
use apex_os_rv.Prelude.{
  ℕ, zero, suc, ◌+◌, ◌*◌, ◌/◌, ◌%◌, ◌^◌, ◌≤◌, ◌<◌, ◌≡◌, refl, ap, sym, ◌∙◌, arith,
}
use apex_os_rv.Kernel.Rng.Xor.{xor_digits}

xor_digits-fuel : (n m a b : ℕ) → a ≤ n → a ≤ m → xor_digits n a b ≡ xor_digits m a b
xor_digits-fuel zero zero a b p q = refl
xor_digits-fuel zero (suc m) zero b p q = refl
xor_digits-fuel zero (suc m) (suc a) b p q = absurd (omega arith)
xor_digits-fuel (suc n) zero zero b p q = refl
xor_digits-fuel (suc n) zero (suc a) b p q = absurd (omega arith)
xor_digits-fuel (suc n) (suc m) zero b p q = refl
xor_digits-fuel (suc n) (suc m) (suc a) b p q =
    omega (arith, xor_digits-fuel n m (suc a / 2) (b / 2) (omega arith) (omega arith))

pub zero-bit_xor : (b : ℕ) → bit_xor 0 b ≡ b
zero-bit_xor b = bit_xor-bitwise 0 b

-- The digits of the exclusive or: the halves' and the lowest ones'.
bit_xor-halves : (a b : ℕ) → bit_xor a b ≡ bit_xor (a / 2) (b / 2) * 2 + differ (a % 2) (b % 2)
bit_xor-halves zero b = omega (arith, zero-bit_xor b, zero-bit_xor (b / 2))
bit_xor-halves (suc a) b = omega (
  arith,
  bit_xor-bitwise (suc a) b,
  bit_xor-bitwise (suc a / 2) (b / 2),
  xor_digits-fuel a (suc a / 2) (suc a / 2) (b / 2) (omega arith) (omega arith),
)

-- A digit.
abbrev IsBit : ℕ → Type 0
IsBit p = p ≤ 1

differ-IsBit : (p q : ℕ) → IsBit p → IsBit q → IsBit (differ p q)
differ-IsBit zero q h k = k
differ-IsBit (suc zero) zero h k = h
differ-IsBit (suc zero) (suc zero) h k = omega arith
differ-IsBit (suc zero) (suc (suc q)) h k = absurd (omega arith)
differ-IsBit (suc (suc p)) q h k = absurd (omega arith)

differ_self : (p : ℕ) → differ p p ≡ 0
differ_self zero = refl
differ_self (suc p) = differ_self p

differ-zero : (p : ℕ) → differ p 0 ≡ p
differ-zero zero = refl
differ-zero (suc p) = refl

differ_assoc :
    (p q r : ℕ) → IsBit p → IsBit q → IsBit r → differ (differ p q) r ≡ differ p (differ q r)
differ_assoc zero q r h k l = refl
differ_assoc (suc zero) zero r h k l = refl
differ_assoc (suc zero) (suc zero) zero h k l = refl
differ_assoc (suc zero) (suc zero) (suc zero) h k l = refl
differ_assoc (suc zero) (suc zero) (suc (suc r)) h k l = absurd (omega arith)
differ_assoc (suc zero) (suc (suc q)) r h k l = absurd (omega arith)
differ_assoc (suc (suc p)) q r h k l = absurd (omega arith)

-- Halving and the lowest digit go through the exclusive or.
bit_xor-half :
    (a b : ℕ)
    → (bit_xor a b / 2 ≡ bit_xor (a / 2) (b / 2)) × (bit_xor a b % 2 ≡ differ (a % 2) (b % 2))
bit_xor-half a b =
    let bit = differ-IsBit (a % 2) (b % 2) (omega arith) (omega arith) in
    (omega (arith, bit_xor-halves a b, bit), omega (arith, bit_xor-halves a b, bit))

bit_xor_self_fuel : (n a : ℕ) → a ≤ n → bit_xor a a ≡ 0
bit_xor_self_fuel n zero h = zero-bit_xor 0
bit_xor_self_fuel zero (suc a) h = absurd (omega arith)
bit_xor_self_fuel (suc n) (suc a) h = omega (
  arith,
  bit_xor-halves (suc a) (suc a),
  differ_self (suc a % 2),
  bit_xor_self_fuel n (suc a / 2) (omega arith),
)

pub bit_xor_self : (a : ℕ) → bit_xor a a ≡ 0
bit_xor_self a = bit_xor_self_fuel a a (omega arith)

bit_xor_zero_fuel : (n a : ℕ) → a ≤ n → bit_xor a 0 ≡ a
bit_xor_zero_fuel n zero h = zero-bit_xor 0
bit_xor_zero_fuel zero (suc a) h = absurd (omega arith)
bit_xor_zero_fuel (suc n) (suc a) h = omega (
  arith,
  bit_xor-halves (suc a) 0,
  differ-zero (suc a % 2),
  bit_xor_zero_fuel n (suc a / 2) (omega arith),
)

pub bit_xor_zero : (a : ℕ) → bit_xor a 0 ≡ a
bit_xor_zero a = bit_xor_zero_fuel a a (omega arith)

bit_xor_assoc_fuel : (n a b c : ℕ) → a ≤ n → bit_xor (bit_xor a b) c ≡ bit_xor a (bit_xor b c)
bit_xor_assoc_fuel n zero b c h = rw (zero-bit_xor b) (sym (zero-bit_xor (bit_xor b c)))
bit_xor_assoc_fuel zero (suc a) b c h = absurd (omega arith)
bit_xor_assoc_fuel (suc n) (suc a) b c h =
    let ab = bit_xor-half (suc a) b in
    let bc = bit_xor-half b c in
    let low = differ_assoc (suc a % 2) (b % 2) (c % 2) (omega arith) (omega arith) (omega arith) in
    let high = bit_xor_assoc_fuel n (suc a / 2) (b / 2) (c / 2) (omega arith) in
    let left : bit_xor (bit_xor (suc a) b) c
        ≡ bit_xor (bit_xor (suc a / 2) (b / 2)) (c / 2) * 2
          + differ (differ (suc a % 2) (b % 2)) (c % 2) =
      rw⁻¹ (ab.0, ab.1) (bit_xor-halves (bit_xor (suc a) b) c) in
    let right : bit_xor (suc a) (bit_xor b c)
        ≡ bit_xor (suc a / 2) (bit_xor (b / 2) (c / 2)) * 2
          + differ (suc a % 2) (differ (b % 2) (c % 2)) =
      rw⁻¹ (bc.0, bc.1) (bit_xor-halves (suc a) (bit_xor b c)) in
    omega (arith, left, right, low, high)

pub bit_xor_assoc : (a b c : ℕ) → bit_xor (bit_xor a b) c ≡ bit_xor a (bit_xor b c)
bit_xor_assoc a b c = bit_xor_assoc_fuel a a b c (omega arith)

-- What goes through the exclusive or.
abbrev pub IsLinear : (ℕ → ℕ) → Type 0
IsLinear f = (a b : ℕ) → f (bit_xor a b) ≡ bit_xor (f a) (f b)

-- `n` digits dropped, and `n` zeros appended.
abbrev pub halved : ℕ → ℕ → ℕ
halved zero x = x
halved (suc n) x = halved n (x / 2)

abbrev pub doubled : ℕ → ℕ → ℕ
doubled zero x = x
doubled (suc n) x = doubled n (x * 2)

pub halved-IsLinear : (n : ℕ) → IsLinear (halved n)
halved-IsLinear zero a b = refl
halved-IsLinear (suc n) a b = ap (halved n) (bit_xor-half a b).0 ∙ halved-IsLinear n (a / 2) (b / 2)

double-IsLinear : (a b : ℕ) → bit_xor a b * 2 ≡ bit_xor (a * 2) (b * 2)
double-IsLinear a b =
    let ea : a * 2 / 2 ≡ a = omega arith in
    let eb : b * 2 / 2 ≡ b = omega arith in
    let za : a * 2 % 2 ≡ 0 = omega arith in
    let zb : b * 2 % 2 ≡ 0 = omega arith in
    sym (bit_xor-halves (a * 2) (b * 2) ∙ rw (ea, eb, za, zb) (omega arith))

pub doubled-IsLinear : (n : ℕ) → IsLinear (doubled n)
doubled-IsLinear zero a b = refl
doubled-IsLinear (suc n) a b =
    ap (doubled n) (double-IsLinear a b) ∙ doubled-IsLinear n (a * 2) (b * 2)

-- The remainder by an even number: that of the half, and the lowest digit.
mod-double : (x p : ℕ) → 0 < p → x % (p + p) ≡ x / 2 % p * 2 + x % 2
mod-double x p some_p =
    let q = x / 2 / p in
    let r = x / 2 % p in
    let split : x ≡ (r * 2 + x % 2) + q * (p + p) =
      omega (arith, div-add-mod' (x / 2) p, mul-add q p p) in
    ap (λ y. y % (p + p)) split
    ∙ add-mul-mod_self_right (r * 2 + x % 2) q (p + p)
    ∙ mod-eq_of_lt (omega (arith, mod-lt (x / 2) some_p))

pow-pos : (w : ℕ) → 0 < 2 ^ w
pow-pos zero = omega arith
pow-pos (suc w) = omega (arith, pow-pos w)

mod-suc_pow : (w x : ℕ) → x % 2 ^ suc w ≡ x / 2 % 2 ^ w * 2 + x % 2
mod-suc_pow w x =
    let twice : 2 ^ suc w ≡ 2 ^ w + 2 ^ w = omega arith in
    ap (λ m. x % m) twice ∙ mod-double x (2 ^ w) (pow-pos w)

-- The lowest `w` digits go through the exclusive or.
pub mod-IsLinear : (w : ℕ) → IsLinear (λ x. x % 2 ^ w)
mod-IsLinear zero a b =
    let ea : a % 2 ^ 0 ≡ 0 = omega arith in
    let eb : b % 2 ^ 0 ≡ 0 = omega arith in
    let e : bit_xor a b % 2 ^ 0 ≡ 0 = omega arith in rw (ea, eb, e) (sym (bit_xor_self 0))
mod-IsLinear (suc w) a b =
    let h = bit_xor-half a b in
    let da = mod-suc_pow w a in
    let db = mod-suc_pow w b in
    let ea : a % 2 ^ suc w / 2 ≡ a / 2 % 2 ^ w = omega (arith, da) in
    let eb : b % 2 ^ suc w / 2 ≡ b / 2 % 2 ^ w = omega (arith, db) in
    let za : a % 2 ^ suc w % 2 ≡ a % 2 = omega (arith, da) in
    let zb : b % 2 ^ suc w % 2 ≡ b % 2 = omega (arith, db) in
    mod-suc_pow w (bit_xor a b)
    ∙ rw (h.0, h.1, mod-IsLinear w (a / 2) (b / 2))
        (sym (bit_xor-halves (a % 2 ^ suc w) (b % 2 ^ suc w) ∙ rw (ea, eb, za, zb) refl))
