-- ===== src/Kernel/Rng/Back.antt =====
-- The generator runs backwards (`DetRng::next_u64`, kernel/src/net/mesh.rs).
use Prim.Native.Nat.{bit_xor}
use apex_os_rv.Prelude.{ℕ, zero, suc, ◌*◌, ◌/◌, ◌%◌, ◌^◌, ◌<◌, ◌≡◌, refl, ap, sym, ◌∙◌, arith}
use apex_os_rv.Kernel.Watchdog.{u64, u64_mod}
use apex_os_rv.Kernel.Rng.{DetRng, right_12, left_25, right_27, next_u64}
use apex_os_rv.Kernel.Rng.Xor.{bit_xor-width}
use apex_os_rv.Kernel.Rng.Linear.{
  IsLinear, zero-bit_xor, bit_xor_self, bit_xor_zero, bit_xor_assoc, halved, doubled,
  halved-IsLinear, doubled-IsLinear, mod-IsLinear,
}

-- Undoing `x ^= shift(x)`: what is known of `x` is shifted and taken out again, `n` times.
abbrev pub undo : (ℕ → ℕ) → ℕ → ℕ → ℕ
undo shift zero y = y
undo shift (suc n) y = bit_xor y (shift (undo shift n y))

abbrev times : (ℕ → ℕ) → ℕ → ℕ → ℕ
times f zero x = x
times f (suc n) x = f (times f n x)

module _ (shift : ℕ → ℕ) (linear : IsLinear shift) (x : ℕ) where
  -- What is left of the error after `n` rounds has been shifted once more than that.
  undo-error : (n : ℕ) → undo shift n (bit_xor x (shift x)) ≡ bit_xor x (times shift (suc n) x)
  undo-error zero = refl
  undo-error (suc n) =
      let y = shift x in
      let z = times shift (suc (suc n)) x in
      let shifted : shift (undo shift n (bit_xor x y)) ≡ bit_xor y z =
        ap shift (undo-error n) ∙ linear x (times shift (suc n) x) in
      let cancels : bit_xor y (bit_xor y z) ≡ z =
        sym (bit_xor_assoc y y z) ∙ ap (λ a. bit_xor a z) (bit_xor_self y) ∙ zero-bit_xor z in
      ap (bit_xor (bit_xor x y)) shifted ∙ bit_xor_assoc x y (bit_xor y z) ∙ ap (bit_xor x) cancels

  undo-shift : (n : ℕ) → times shift (suc n) x ≡ 0 → undo shift n (bit_xor x (shift x)) ≡ x
  undo-shift n gone = undo-error n ∙ ap (bit_xor x) gone ∙ bit_xor_zero x

-- The shifts of the generator.
abbrev by_12 : ℕ → ℕ
by_12 x = x / 4096

abbrev by_25 : ℕ → ℕ
by_25 x = u64 (x * 33554432)

abbrev by_27 : ℕ → ℕ
by_27 x = x / 134217728

by_12-IsLinear : IsLinear by_12
by_12-IsLinear a b =
    let same : (x : ℕ) → halved 12 x ≡ by_12 x = λ x. omega arith in
    sym (same (bit_xor a b))
    ∙ halved-IsLinear 12 a b
    ∙ ap (λ y. bit_xor y (halved 12 b)) (same a)
    ∙ ap (bit_xor (by_12 a)) (same b)

by_27-IsLinear : IsLinear by_27
by_27-IsLinear a b =
    let same : (x : ℕ) → halved 27 x ≡ by_27 x = λ x. omega arith in
    sym (same (bit_xor a b))
    ∙ halved-IsLinear 27 a b
    ∙ ap (λ y. bit_xor y (halved 27 b)) (same a)
    ∙ ap (bit_xor (by_27 a)) (same b)

by_25-IsLinear : IsLinear by_25
by_25-IsLinear a b =
    let same : (x : ℕ) → doubled 25 x % 2 ^ 64 ≡ by_25 x = λ x. omega arith in
    sym (same (bit_xor a b))
    ∙ ap (λ y. y % 2 ^ 64) (doubled-IsLinear 25 a b)
    ∙ mod-IsLinear 64 (doubled 25 a) (doubled 25 b)
    ∙ ap (λ y. bit_xor y (doubled 25 b % 2 ^ 64)) (same a)
    ∙ ap (bit_xor (by_25 a)) (same b)

-- The state before a state: the three shifts undone, the last one first.
abbrev pub previous : ℕ → ℕ
previous y =
    undo (λ x. x / 4096) 5 (undo (λ x. u64 (x * 33554432)) 2 (undo (λ x. x / 134217728) 2 y))

-- The inverse of the factor of the numbers that are drawn, modulo 2^64.
abbrev pub unscramble : ℕ → ℕ
unscramble x = u64 (x * 0x5907_1D96_D81E_CD35)

right_12-width : (x : ℕ) → x < u64_mod → right_12 x < u64_mod
unfolding right_12
right_12-width x h = omega (arith, bit_xor-width x (x / 4096) 64 (omega arith) (omega arith))

left_25-width : (x : ℕ) → x < u64_mod → left_25 x < u64_mod
unfolding left_25
left_25-width x h =
    omega (arith, bit_xor-width x (u64 (x * 33554432)) 64 (omega arith) (omega arith))

right_27-width : (x : ℕ) → x < u64_mod → right_27 x < u64_mod
unfolding right_27
right_27-width x h = omega (arith, bit_xor-width x (x / 134217728) 64 (omega arith) (omega arith))

previous_lem : (x : ℕ) → x < u64_mod → previous (right_27 (left_25 (right_12 x))) ≡ x
unfolding right_12 left_25 right_27
previous_lem x h =
    let a = right_12 x in
    let b = left_25 a in
    let ha = right_12-width x h in
    let hb = left_25-width a ha in
    ap (λ y. undo by_12 5 (undo by_25 2 y)) (undo-shift by_27 by_27-IsLinear b 2 (omega arith))
    ∙ ap (undo by_12 5) (undo-shift by_25 by_25-IsLinear a 2 (omega arith))
    ∙ undo-shift by_12 by_12-IsLinear x 5 (omega arith)

-- From a state that is a u64, the state before is had back from the state that a draw leaves, by
-- undoing its shifts, and the state that it leaves is had back from the number that is drawn.
pub previous-next_u64 :
    (rng : DetRng)
    → rng.state < u64_mod
    → (previous (next_u64 rng).1.state ≡ rng.state)
      × (unscramble (next_u64 rng).0 ≡ (next_u64 rng).1.state)
unfolding next_u64
previous-next_u64 rng h =
    let small =
      right_27-width (left_25 (right_12 rng.state))
        (left_25-width (right_12 rng.state) (right_12-width rng.state h)) in
    (previous_lem rng.state h, omega arith)
