-- ===== src/Str/Decimal.antt =====
-- `Display` of a `u32`, for whose digits ten rounds are enough, `str::parse` at an unsigned integer, and
-- `str::split` at a character.
pub mod Reads
use apex_os_rv.Prelude.{
  ℕ, zero, suc, ◌+◌, ◌-◌, ◌/◌, ◌%◌, Bool, ◌*◌, ◌&&◌, Option, none, some, List, [], ◌∷◌, Text, ltb,
  leb, eqb, if◌then◌else◌,
}

unfoldable pub digits : ℕ → ℕ → Text → Text
digits zero n out = out
digits (suc rounds) n out =
    let more = digits rounds (n / 10) ((b'0' + n % 10) ∷ out) in
    if ltb n 10 then (b'0' + n) ∷ out else more

unfoldable pub decimal : ℕ → Text
unfolding digits
decimal n = digits 10 n []

-- A digit behind the number `n`, unless the number gets too large.
unfoldable pub push_digit : ℕ → ℕ → ℕ → Option ℕ
push_digit max n c =
    if leb b'0' c && leb c b'9' && leb (n * 10 + (c - b'0')) max
    then some (n * 10 + (c - b'0'))
    else none

abbrev pub parse_on : (ℕ → Option ℕ) → Option ℕ → Option ℕ
parse_on rest none = none
parse_on rest (some n) = rest n

unfoldable pub parse_from : ℕ → ℕ → Text → Option ℕ
parse_from max n [] = some n
parse_from max n (c ∷ s) = parse_on (λ n'. parse_from max n' s) (push_digit max n c)

abbrev pub parse_unsigned : ℕ → Text → Option ℕ
parse_unsigned max [] = none
parse_unsigned max (c ∷ s) = parse_from max 0 (c ∷ s)

-- `str::parse`, at the type whose largest number is `max`; a plus may stand in front.
unfoldable pub parse : ℕ → Text → Option ℕ
parse max [] = none
parse max (c ∷ s) = if eqb c b'+' then parse_unsigned max s else parse_unsigned max (c ∷ s)

abbrev pub onto_first : ℕ → List Text → List Text
onto_first c [] = (c ∷ []) ∷ []
onto_first c (piece ∷ more) = (c ∷ piece) ∷ more

unfoldable pub split : ℕ → Text → List Text
split sep [] = [] ∷ []
split sep (c ∷ s) = let rest = split sep s in if eqb c sep then [] ∷ rest else onto_first c rest
