-- ===== src/Str/Utf8.antt =====
-- `str::bytes`: a character is one to four bytes. The decoder is a reader's, not the program's.
pub mod Reads
use apex_os_rv.Prelude.{
  ℕ, zero, suc, ◌+◌, ◌-◌, ◌*◌, ◌/◌, ◌%◌, List, [], ◌∷◌, ◌++◌, Text, ltb, if◌then◌else◌,
}

unfoldable pub encode_char : ℕ → List ℕ
encode_char c =
    if ltb c 128
    then c ∷ []
    else if ltb c 2048
    then (192 + c / 64) ∷ (128 + c % 64) ∷ []
    else if ltb c 65536
    then (224 + c / 4096) ∷ (128 + c / 64 % 64) ∷ (128 + c % 64) ∷ []
    else (240 + c / 262144) ∷ (128 + c / 4096 % 64) ∷ (128 + c / 64 % 64) ∷ (128 + c % 64) ∷ []

unfoldable pub bytes : Text → List ℕ
bytes [] = []
bytes (c ∷ s) = encode_char c ++ bytes s

-- `decode_from n acc s`: so many bytes of a character are still to come, which began with `acc`.
unfoldable pub decode_from : ℕ → ℕ → List ℕ → Text
decode_from n acc [] = []
decode_from zero acc (b ∷ s) =
    let single = b ∷ decode_from 0 0 s in
    let double = decode_from 1 (b - 192) s in
    let triple = decode_from 2 (b - 224) s in
    let fourfold = decode_from 3 (b - 240) s in
    if ltb b 128
    then single
    else if ltb b 224
    then double
    else if ltb b 240
    then triple
    else fourfold
decode_from (suc zero) acc (b ∷ s) = (acc * 64 + (b - 128)) ∷ decode_from 0 0 s
decode_from (suc (suc n)) acc (b ∷ s) = decode_from (suc n) (acc * 64 + (b - 128)) s

abbrev pub decode : List ℕ → Text
decode s = decode_from 0 0 s
