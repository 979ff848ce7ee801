-- ===== src/Str/Trim.antt =====
-- `char::is_whitespace`, `trim`, `strip_prefix` and `split_once` of the standard library.
use apex_os_rv.Prelude.{
  ℕ, ◌≡◌, refl, Bool, true, false, ◌&&◌, ◌||◌, Option, none, some, [], ◌∷◌, ◌++◌, Text, eqb, leb,
  if◌then◌else◌, arith, Bool-cases, inl, inr,
}

-- Unicode's White_Space.
unfoldable pub is_whitespace : ℕ → Bool
is_whitespace c =
    leb 9 c && leb c 13
    || eqb c 32
    || eqb c 0x85
    || eqb c 0xa0
    || eqb c 0x1680
    || leb 0x2000 c && leb c 0x200a
    || eqb c 0x2028
    || eqb c 0x2029
    || eqb c 0x202f
    || eqb c 0x205f
    || eqb c 0x3000

abbrev pub is_empty : Text → Bool
is_empty [] = true
is_empty (_ ∷ _) = false

unfoldable pub trim_start : Text → Text
trim_start [] = []
trim_start (c ∷ s) = let rest = trim_start s in if is_whitespace c then rest else c ∷ s

unfoldable pub trim_end : Text → Text
trim_end [] = []
trim_end (c ∷ s) =
    let rest = trim_end s in if is_empty rest && is_whitespace c then [] else c ∷ rest

unfoldable pub trim : Text → Text
unfolding trim_start trim_end
trim s = trim_start (trim_end s)

unfoldable pub strip_prefix : Text → Text → Option Text
strip_prefix [] s = some s
strip_prefix (p ∷ ps) [] = none
strip_prefix (p ∷ ps) (c ∷ s) = let rest = strip_prefix ps s in if eqb p c then rest else none

-- `split_once(char::is_whitespace)`: what stands before the first white space, and behind it.
unfoldable pub split_once : Text → Option (Text × Text)
split_once [] = none
split_once (c ∷ s) =
    let rest = split_once s in
    if is_whitespace c
    then some ([], s)
    else elim rest [ none ↦ none | some (a, b) ↦ some (c ∷ a, b) ]

-- Nothing to trim at the end: the last code point, if there is one, is no white space.
abbrev pub IsEndTrimmed : Text → Type 0
IsEndTrimmed [] = Unit
IsEndTrimmed (c ∷ []) = is_whitespace c ≡ false
IsEndTrimmed (c ∷ d ∷ s) = IsEndTrimmed (d ∷ s)

abbrev pub IsStartTrimmed : Text → Type 0
IsStartTrimmed [] = Unit
IsStartTrimmed (c ∷ s) = is_whitespace c ≡ false

pub trim_end_of_IsEndTrimmed : (s : Text) → IsEndTrimmed s → trim_end s ≡ s
unfolding trim_end
trim_end_of_IsEndTrimmed [] h = refl
trim_end_of_IsEndTrimmed (c ∷ []) h = rw h
trim_end_of_IsEndTrimmed (c ∷ d ∷ s) h = rw (trim_end_of_IsEndTrimmed (d ∷ s) h)

pub trim_start_of_IsStartTrimmed : (s : Text) → IsStartTrimmed s → trim_start s ≡ s
unfolding trim_start
trim_start_of_IsStartTrimmed [] h = refl
trim_start_of_IsStartTrimmed (c ∷ s) h = rw h

-- A text with no white space at either end is its own trim.
pub trim_of_trimmed : (s : Text) → IsStartTrimmed s → IsEndTrimmed s → trim s ≡ s
unfolding trim
trim_of_trimmed s a b = rw (trim_end_of_IsEndTrimmed s b) (trim_start_of_IsStartTrimmed s a)

trim_end-IsEndTrimmed : (s : Text) → IsEndTrimmed (trim_end s)
unfolding trim_end
trim_end-IsEndTrimmed [] = tt
trim_end-IsEndTrimmed (c ∷ s) = go (trim_end s) (trim_end-IsEndTrimmed s)
  where
    go :
        (r : Text)
        → IsEndTrimmed r
        → IsEndTrimmed (if is_empty r && is_whitespace c then [] else c ∷ r)
    go [] h = elim (Bool-cases (is_whitespace c)) [ inl e ↦ rw e tt | inr e ↦ rw e e ]
    go (d ∷ r) h = h

trim_start-IsStartTrimmed : (s : Text) → IsStartTrimmed (trim_start s)
unfolding trim_start
trim_start-IsStartTrimmed [] = tt
trim_start-IsStartTrimmed (c ∷ s) = elim (Bool-cases (is_whitespace c)) [
  | inl e ↦ rw e (trim_start-IsStartTrimmed s)
  | inr e ↦ rw e e
]

IsEndTrimmed-tail : (c : ℕ) (s : Text) → IsEndTrimmed (c ∷ s) → IsEndTrimmed s
IsEndTrimmed-tail c [] h = tt
IsEndTrimmed-tail c (d ∷ s) h = h

trim_start-IsEndTrimmed : (s : Text) → IsEndTrimmed s → IsEndTrimmed (trim_start s)
unfolding trim_start
trim_start-IsEndTrimmed [] h = tt
trim_start-IsEndTrimmed (c ∷ s) h = elim (Bool-cases (is_whitespace c)) [
  | inl e ↦ rw e (trim_start-IsEndTrimmed s (IsEndTrimmed-tail c s h))
  | inr e ↦ rw e h
]

-- Trimming leaves no white space at either end.
pub trim-IsTrimmed : (s : Text) → IsStartTrimmed (trim s) × IsEndTrimmed (trim s)
unfolding trim
trim-IsTrimmed s = (
  trim_start-IsStartTrimmed (trim_end s),
  trim_start-IsEndTrimmed (trim_end s) (trim_end-IsEndTrimmed s),
)

pub trim-trim : (s : Text) → trim (trim s) ≡ trim s
trim-trim s = let (a, b) = trim-IsTrimmed s in trim_of_trimmed (trim s) a b

pub IsEndTrimmed-append :
    (s : Text) (c : ℕ) (t : Text) → IsEndTrimmed (c ∷ t) → IsEndTrimmed (s ++ c ∷ t)
IsEndTrimmed-append [] c t h = h
IsEndTrimmed-append (x ∷ []) c t h = h
IsEndTrimmed-append (x ∷ y ∷ s) c t h = IsEndTrimmed-append (y ∷ s) c t h

pub strip_prefix-append : (p s : Text) → strip_prefix p (p ++ s) ≡ some s
unfolding strip_prefix
strip_prefix-append [] s = refl
strip_prefix-append (c ∷ p) s = ground (arith, strip_prefix-append p s)
