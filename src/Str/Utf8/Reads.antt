-- ===== src/Str/Utf8/Reads.antt =====
-- Reading the bytes of a text.
use apex_os_rv.Prelude.{
  ℕ, ◌+◌, ◌-◌, ◌*◌, ◌/◌, ◌%◌, ◌≤◌, ◌<◌, ◌≡◌, refl, ap, ◌∙◌, List, [], ◌∷◌, ◌++◌, append_assoc, Text,
  ltb, lt→ltb, ltb_of_le, ltb→lt, Bool-cases, inl, inr, All, arith,
}
use apex_os_rv.Str.Utf8.{encode_char, bytes, decode_from, decode}

-- `char` is a scalar value, at most the last code point.
abbrev pub IsScalar : ℕ → Type 0
IsScalar c = c < 1114112

decode-single : (c : ℕ) (s : List ℕ) → c < 128 → decode (c ∷ s) ≡ c ∷ decode s
unfolding decode_from
decode-single c s h = rw (lt→ltb c 128 h) refl

decode-double :
    (b b1 : ℕ) (s : List ℕ)
    → 128 ≤ b
    → b < 224
    → decode (b ∷ b1 ∷ s) ≡ ((b - 192) * 64 + (b1 - 128)) ∷ decode s
unfolding decode_from
decode-double b b1 s h k = rw (ltb_of_le b 128 h, lt→ltb b 224 k) refl

decode-triple :
    (b b1 b2 : ℕ) (s : List ℕ)
    → 224 ≤ b
    → b < 240
    → decode (b ∷ b1 ∷ b2 ∷ s) ≡ (((b - 224) * 64 + (b1 - 128)) * 64 + (b2 - 128)) ∷ decode s
unfolding decode_from
decode-triple b b1 b2 s h k =
    rw (ltb_of_le b 128 (omega arith), ltb_of_le b 224 h, lt→ltb b 240 k) refl

decode-fourfold :
    (b b1 b2 b3 : ℕ) (s : List ℕ)
    → 240 ≤ b
    → decode (b ∷ b1 ∷ b2 ∷ b3 ∷ s)
      ≡ ((((b - 240) * 64 + (b1 - 128)) * 64 + (b2 - 128)) * 64 + (b3 - 128)) ∷ decode s
unfolding decode_from
decode-fourfold b b1 b2 b3 s h =
    rw (ltb_of_le b 128 (omega arith), ltb_of_le b 224 (omega arith), ltb_of_le b 240 h) refl

decode-encode_char : (c : ℕ) (s : List ℕ) → IsScalar c → decode (encode_char c ++ s) ≡ c ∷ decode s
unfolding encode_char
decode-encode_char c s h = elim (Bool-cases (ltb c 128)) [
  | inl one ↦ rw one (decode-single c s (ltb→lt c 128 one))
  | inr more ↦ elim (Bool-cases (ltb c 2048)) [
    | inl two ↦
        rw (more, two)
          (decode-double (192 + c / 64) (128 + c % 64) s (omega arith)
              (omega (arith, ltb→lt c 2048 two))
            ∙ ap (λ k. k ∷ decode s) (omega (arith, ltb→lt c 2048 two)))
    | inr more' ↦ elim (Bool-cases (ltb c 65536)) [
      | inl three ↦
          rw (more, more', three)
            (decode-triple (224 + c / 4096) (128 + c / 64 % 64) (128 + c % 64) s (omega arith)
                (omega (arith, ltb→lt c 65536 three))
              ∙ ap (λ k. k ∷ decode s) (omega (arith, ltb→lt c 65536 three)))
      | inr four ↦
          rw (more, more', four)
            (decode-fourfold (240 + c / 262144) (128 + c / 4096 % 64) (128 + c / 64 % 64)
                (128 + c % 64) s (omega arith)
              ∙ ap (λ k. k ∷ decode s) (omega arith))
    ]
  ]
]

-- A text of scalar values is read back from its bytes, with what stands behind them.
pub decode-bytes : (t : Text) (s : List ℕ) → All IsScalar t → decode (bytes t ++ s) ≡ t ++ decode s
unfolding bytes
decode-bytes [] s h = refl
decode-bytes (c ∷ t) s (h, hs) =
    ap decode (append_assoc (encode_char c) (bytes t) s)
    ∙ decode-encode_char c (bytes t ++ s) h
    ∙ ap (λ r. c ∷ r) (decode-bytes t s hs)
