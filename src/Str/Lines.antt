-- ===== src/Str/Lines.antt =====
-- `str::lines`.
use mathlib.Core.List.{reverse, reverse-append}
use apex_os_rv.Prelude.{
  ℕ, ◌≡◌, ◌≢◌, refl, false, List, [], ◌∷◌, ◌++◌, append-nil, append_assoc, ap, sym, ◌∙◌, Text, eqb,
  eqb_ne, All, Bool-cases, inl, inr, if◌then◌else◌,
}
use apex_os_rv.Str.Trim.{is_empty}

abbrev pub newline : ℕ
newline = 10

-- A carriage return before the line feed belongs to the line's end.
unfoldable pub strip_cr : Text → Text
strip_cr [] = []
strip_cr (c ∷ []) = if eqb c 13 then [] else c ∷ []
strip_cr (c ∷ d ∷ s) = c ∷ strip_cr (d ∷ s)

-- `line` is the part of the current line that was read. A last line needs no line feed, and keeps
-- its carriage return.
unfoldable pub lines_from : Text → Text → List Text
unfolding strip_cr
lines_from line [] = if is_empty line then [] else line ∷ []
lines_from line (c ∷ s) =
    let ended = strip_cr line ∷ lines_from [] s in
    let longer = lines_from (line ++ c ∷ []) s in if eqb c newline then ended else longer

unfoldable pub lines : Text → List Text
unfolding lines_from
lines s = lines_from [] s

abbrev pub IsOneLine : Text → Type 0
IsOneLine = All (λ c. c ≢ newline)

not_empty : (s : Text) → s ≢ [] → is_empty s ≡ false
not_empty [] h = absurd (h refl)
not_empty (c ∷ s) h = refl

lines_from_one :
    (l line : Text) → IsOneLine l → line ++ l ≢ [] → lines_from line l ≡ (line ++ l) ∷ []
unfolding lines_from
lines_from_one [] line h ne = rw append-nil (rw (not_empty line (λ e. ne (append-nil line ∙ e))))
lines_from_one (c ∷ l) line (h, hs) ne =
    let joined = append_assoc line (c ∷ []) l in
    rw (eqb_ne c newline h)
      (rw joined at (lines_from_one l (line ++ c ∷ []) hs (λ e. ne (sym joined ∙ e))))

-- A last line without a line feed is the last of the lines, whatever stands before it.
lines_from_last :
    (s line l : Text)
    → IsOneLine l
    → l ≢ []
    → (before : List Text) × (lines_from line (s ++ newline ∷ l) ≡ before ++ l ∷ [])
unfolding lines_from
lines_from_last [] line l h ne =
    (strip_cr line ∷ [], ap (◌∷◌ (strip_cr line)) (lines_from_one l [] h ne))
lines_from_last (c ∷ s) line l h ne = elim (Bool-cases (eqb c newline)) [
  | inl e ↦ let (before, eq) = lines_from_last s [] l h ne in (strip_cr line ∷ before, rw e (rw eq))
  | inr e ↦ let (before, eq) = lines_from_last s (line ++ c ∷ []) l h ne in (before, rw e eq)
]

pub reverse-lines_last :
    (s l : Text)
    → IsOneLine l
    → l ≢ []
    → (before : List Text) × (reverse (lines (s ++ newline ∷ l)) ≡ l ∷ before)
unfolding lines
reverse-lines_last s l h ne =
    let (before, eq) = lines_from_last s [] l h ne in
    (reverse before, rw eq (reverse-append before (l ∷ [])))
