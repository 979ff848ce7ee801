-- ===== src/Str/Decimal/Reads.antt =====
-- Reading a printed number, also between separators.
use apex_os_rv.Prelude.{
  ℕ, zero, suc, ◌+◌, ◌*◌, ◌/◌, ◌%◌, ◌^◌, ◌≤◌, ◌<◌, ◌≡◌, ◌≢◌, refl, ap, ◌∙◌, some, [], ◌∷◌, ◌++◌,
  Text, ltb, eqb_ne, ltb→lt, Bool-cases, inl, inr, All, arith,
}
use apex_os_rv.Str.Decimal.{digits, decimal, push_digit, parse_from, parse, onto_first, split}

abbrev pub IsDigit : ℕ → Type 0
IsDigit c = (b'0' ≤ c) × (c ≤ b'9')

push_digit-some :
    (max n d : ℕ) → d < 10 → n * 10 + d ≤ max → push_digit max n (b'0' + d) ≡ some (n * 10 + d)
unfolding push_digit
push_digit-some max n d h fits = ground arith

parse_from-suc :
    (max n d : ℕ) (s : Text)
    → d < 10
    → n * 10 + d ≤ max
    → parse_from max n ((b'0' + d) ∷ s) ≡ parse_from max (n * 10 + d) s
unfolding parse_from
parse_from-suc max n d s h fits = rw (push_digit-some max n d h fits) refl

parse_from-digits :
    (max rounds n : ℕ) (out : Text)
    → n < 10 ^ rounds
    → n ≤ max
    → parse_from max 0 (digits rounds n out) ≡ parse_from max n out
unfolding digits
parse_from-digits max zero n out h fits = ap (λ k. parse_from max k out) (omega arith)
parse_from-digits max (suc rounds) n out h fits = elim (Bool-cases (ltb n 10)) [
  | inl small ↦ rw small (
      parse_from-suc max 0 n out (ltb→lt n 10 small) (omega arith)
      ∙ ap (λ k. parse_from max k out) (omega arith))
  | inr large ↦ rw large (
      parse_from-digits max rounds (n / 10) ((b'0' + n % 10) ∷ out) (omega arith) (omega arith)
      ∙ parse_from-suc max (n / 10) (n % 10) out (omega arith) (omega arith)
      ∙ ap (λ k. parse_from max k out) (omega arith))
]

digits-All : (rounds n : ℕ) (out : Text) → All IsDigit out → All IsDigit (digits rounds n out)
unfolding digits
digits-All zero n out h = h
digits-All (suc rounds) n out h = elim (Bool-cases (ltb n 10)) [
  | inl small ↦ rw small ((omega arith, omega (arith, ltb→lt n 10 small)), h)
  | inr large ↦
      rw large (digits-All rounds (n / 10) ((b'0' + n % 10) ∷ out) ((omega arith, omega arith), h))
]

digits-some : (rounds n : ℕ) (c : ℕ) (out : Text) → digits rounds n (c ∷ out) ≢ []
unfolding digits
digits-some zero n c out = λ e. cc
digits-some (suc rounds) n c out = elim (Bool-cases (ltb n 10)) [
  | inl small ↦ rw small (λ e. cc)
  | inr large ↦ rw large (digits-some rounds (n / 10) (b'0' + n % 10) (c ∷ out))
]

pub decimal-All : (n : ℕ) → All IsDigit (decimal n)
unfolding decimal
decimal-All n = digits-All 10 n [] tt

decimal-some : (n : ℕ) → decimal n ≢ []
unfolding decimal digits
decimal-some n = elim (Bool-cases (ltb n 10)) [
  | inl small ↦ rw small (λ e. cc)
  | inr large ↦ rw large (digits-some 9 (n / 10) (b'0' + n % 10) [])
]

parse-digits : (max : ℕ) (s : Text) → s ≢ [] → All IsDigit s → parse max s ≡ parse_from max 0 s
unfolding parse
parse-digits max [] some_text h = absurd (some_text refl)
parse-digits max (c ∷ s) some_text ((low, high), h) =
    let no_plus : c ≢ b'+' = λ e. omega arith in rw (eqb_ne c b'+' no_plus) refl

-- A number of at most ten digits that fits the type is read back as printed.
pub parse-decimal : (max n : ℕ) → n ≤ max → n < 10000000000 → parse max (decimal n) ≡ some n
unfolding decimal parse_from
parse-decimal max n fits short =
    parse-digits max (decimal n) (decimal-some n) (decimal-All n)
    ∙ parse_from-digits max 10 n [] (omega arith) fits

-- The first separator ends the first piece.
pub split-digits :
    (s rest : Text) → All IsDigit s → split b'.' (s ++ b'.' ∷ rest) ≡ s ∷ split b'.' rest
unfolding split
split-digits [] rest h = refl
split-digits (c ∷ s) rest ((low, high), h) =
    let digit : c ≢ b'.' = λ e. omega arith in
    rw (eqb_ne c b'.' digit) (ap (onto_first c) (split-digits s rest h))

pub split-digits_last : (s : Text) → All IsDigit s → split b'.' s ≡ s ∷ []
unfolding split
split-digits_last [] h = refl
split-digits_last (c ∷ s) ((low, high), h) =
    let digit : c ≢ b'.' = λ e. omega arith in
    rw (eqb_ne c b'.' digit) (ap (onto_first c) (split-digits_last s h))
