-- ===== src/Kernel/Uart.antt =====
-- The serial port's writer (kernel/src/uart.rs): what `write_str` puts on the line, byte for byte.
-- The wait for the transmitter is the device's.
use apex_os_rv.Prelude.{
  ap, sym, ◌∙◌, append_assoc, ℕ, ◌≡◌, refl, Bool, false, List, [], ◌∷◌, ◌++◌, eqb, ◌&&◌,
  if◌then◌else◌, Bool-cases, inl, inr, arith,
}

-- The bytes that `putb` sends for one byte of the text.
unfoldable pub put : ℕ → List ℕ
put b = (if eqb b 10 then 13 ∷ [] else []) ++ b ∷ []

unfoldable pub write_str : List ℕ → List ℕ
unfolding put
write_str [] = []
write_str (b ∷ s) = put b ++ write_str s

abbrev starts_lf : List ℕ → Bool
starts_lf [] = false
starts_lf (b ∷ s) = eqb b 10

-- A terminal that passes over a carriage return with a line feed behind it.
abbrev pub read_line : List ℕ → List ℕ
read_line [] = []
read_line (b ∷ s) = let rest = read_line s in if eqb b 13 && starts_lf s then rest else b ∷ rest

starts_lf-write_str : (s : List ℕ) → starts_lf (write_str s) ≡ false
unfolding write_str
starts_lf-write_str [] = refl
starts_lf-write_str (b ∷ s) = elim (Bool-cases (eqb b 10)) [ inl e ↦ rw e refl | inr e ↦ rw e e ]

-- What was written, read by a terminal that passes over a carriage return before a line feed, is
-- the text again, whatever carriage returns and line feeds the text holds.
pub read_line-write_str : (s : List ℕ) → read_line (write_str s) ≡ s
unfolding write_str
read_line-write_str [] = refl
read_line-write_str (b ∷ s) = elim (Bool-cases (eqb b 10)) [
  | inl e ↦ ground (arith, e, read_line-write_str s)
  | inr e ↦ ground (arith, e, starts_lf-write_str s, read_line-write_str s)
]

-- What two writings send is what one of both texts sends, however a macro cuts its text.
pub write_str-append : (s t : List ℕ) → write_str (s ++ t) ≡ write_str s ++ write_str t
unfolding write_str
write_str-append [] t = refl
write_str-append (b ∷ s) t =
    ap (λ r. put b ++ r) (write_str-append s t)
    ∙ sym (append_assoc (put b) (write_str s) (write_str t))
