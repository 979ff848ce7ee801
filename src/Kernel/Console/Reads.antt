-- ===== src/Kernel/Console/Reads.antt =====
-- A host that reads the serial port by lines.
use apex_os_rv.Prelude.{
  All-append, append-nil, arith, ℕ, ◌≡◌, refl, ap, sym, ◌∙◌, List, [], ◌∷◌, ◌++◌, append_assoc,
  Text, eqb_ne, All,
}
use apex_os_rv.Str.Lines.{newline, IsOneLine}
use apex_os_rv.Str.Decimal.{onto_first, split}
use apex_os_rv.Str.Utf8.{encode_char, bytes, decode}
use apex_os_rv.Str.Utf8.Reads.{IsScalar, decode-bytes}
use apex_os_rv.Kernel.Uart.{write_str, read_line, read_line-write_str, write_str-append}
use apex_os_rv.Str.Utf8.{decode_from}
use apex_os_rv.Kernel.Console.{println_bytes, serial}

-- The lines on the port; the last one is what stands behind the last line feed.
unfoldable pub read_lines : List ℕ → List Text
read_lines port = split newline (decode (read_line port))

-- A text that `println!` puts on a line of its own.
abbrev pub IsLine : Text → Type 0
IsLine t = All IsScalar t × IsOneLine t

-- The text of the lines, each with its line feed.
unlines : List Text → Text
unlines [] = []
unlines (t ∷ ts) = t ++ newline ∷ unlines ts

bytes-append : (s t : Text) → bytes (s ++ t) ≡ bytes s ++ bytes t
unfolding bytes
bytes-append [] t = refl
bytes-append (c ∷ s) t =
    ap (λ r. encode_char c ++ r) (bytes-append s t)
    ∙ sym (append_assoc (encode_char c) (bytes s) (bytes t))

serial-unlines : (ts : List Text) → serial ts ≡ write_str (bytes (unlines ts))
unfolding serial println_bytes unlines write_str bytes
serial-unlines [] = refl
serial-unlines (t ∷ ts) =
    ap (λ r. println_bytes t ++ r) (serial-unlines ts)
    ∙ sym (write_str-append (bytes (t ++ newline ∷ [])) (bytes (unlines ts)))
    ∙ ap write_str (
        sym (bytes-append (t ++ newline ∷ []) (unlines ts))
        ∙ ap bytes (append_assoc t (newline ∷ []) (unlines ts)))

unlines-All : (ts : List Text) → All IsLine ts → All IsScalar (unlines ts)
unfolding unlines
unlines-All [] h = tt
unlines-All (t ∷ ts) ((scalar, _), h) =
    All-append IsScalar t (newline ∷ unlines ts) scalar (omega arith, unlines-All ts h)

split-line :
    (t rest : Text) → IsOneLine t → split newline (t ++ newline ∷ rest) ≡ t ∷ split newline rest
unfolding split
split-line [] rest h = refl
split-line (c ∷ t) rest (h, hs) = rw (eqb_ne c newline h) (ap (onto_first c) (split-line t rest hs))

split-unlines : (ts : List Text) → All IsLine ts → split newline (unlines ts) ≡ ts ++ [] ∷ []
unfolding unlines split
split-unlines [] h = refl
split-unlines (t ∷ ts) ((_, one), h) =
    split-line t (unlines ts) one ∙ ap (λ r. t ∷ r) (split-unlines ts h)

decode-unlines : (ts : List Text) → All IsLine ts → decode (bytes (unlines ts)) ≡ unlines ts
unfolding decode_from
decode-unlines ts h =
    ap decode (sym (append-nil (bytes (unlines ts))))
    ∙ decode-bytes (unlines ts) [] (unlines-All ts h)
    ∙ append-nil (unlines ts)

-- Lines of scalar values without a line feed are read from the port as they were printed, and
-- nothing stands behind the last one.
pub read_lines-serial : (ts : List Text) → All IsLine ts → read_lines (serial ts) ≡ ts ++ [] ∷ []
unfolding read_lines
read_lines-serial ts h =
    ap (λ port. split newline (decode (read_line port))) (serial-unlines ts)
    ∙ ap (λ s. split newline (decode s)) (read_line-write_str (bytes (unlines ts)))
    ∙ ap (split newline) (decode-unlines ts h)
    ∙ split-unlines ts h
