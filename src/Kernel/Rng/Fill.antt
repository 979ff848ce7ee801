-- ===== src/Kernel/Rng/Fill.antt =====
-- Filling a buffer (`DetRng::fill_bytes`, kernel/src/net/mesh.rs).
use apex_os_rv.Prelude.{
  ℕ, zero, suc, ◌+◌, ◌-◌, ◌*◌, ◌/◌, ◌<◌, ◌≤◌, ◌≡◌, refl, ap, ◌∙◌, sym, min, List, [], ◌∷◌, ◌++◌,
  take, length, length-append, append_assoc, All, All-append, arith,
}
use apex_os_rv.Kernel.Rng.{DetRng, next_u64, le_bytes, to_le_bytes, fill_chunks, fill_bytes}

abbrev pub IsByte : ℕ → Type 0
IsByte b = b < 256

length-le_bytes : (n x : ℕ) → length (le_bytes n x) ≡ n
unfolding le_bytes
length-le_bytes zero x = refl
length-le_bytes (suc n) x = ap suc (length-le_bytes n (x / 256))

le_bytes-All : (n x : ℕ) → All IsByte (le_bytes n x)
unfolding le_bytes
le_bytes-All zero x = tt
le_bytes-All (suc n) x = (omega arith, le_bytes-All n (x / 256))

length-take : (n : ℕ) (xs : List ℕ) → n ≤ length xs → length (take n xs) ≡ n
length-take zero xs h = refl
length-take (suc n) [] h = absurd (omega arith)
length-take (suc n) (x ∷ xs) h = ap suc (length-take n xs (omega arith))

take-All : (n : ℕ) (xs : List ℕ) → All IsByte xs → All IsByte (take n xs)
take-All zero xs h = tt
take-All (suc n) [] h = tt
take-All (suc n) (x ∷ xs) h = (h.0, take-All n xs h.1)

length-fill_chunks :
    (chunks n : ℕ) (rng : DetRng) → n ≤ 8 * chunks → length (fill_chunks chunks n rng).0 ≡ n
unfolding fill_chunks
length-fill_chunks zero n rng h = omega (arith, h)
length-fill_chunks (suc chunks) n rng h =
    let x = (next_u64 rng).0 in
    omega (
      arith,
      length-append (take (min 8 n) (to_le_bytes x))
          (fill_chunks chunks (n - 8) (next_u64 rng).1).0,
      length-take (min 8 n) (to_le_bytes x) (omega (arith, length-le_bytes 8 x)),
      length-fill_chunks chunks (n - 8) (next_u64 rng).1 (omega arith),
    )

fill_chunks-All : (chunks n : ℕ) (rng : DetRng) → All IsByte (fill_chunks chunks n rng).0
unfolding fill_chunks
fill_chunks-All zero n rng = tt
fill_chunks-All (suc chunks) n rng =
    All-append IsByte (take (min 8 n) (to_le_bytes (next_u64 rng).0)) _
      (take-All (min 8 n) (to_le_bytes (next_u64 rng).0) (le_bytes-All 8 (next_u64 rng).0))
      (fill_chunks-All chunks (n - 8) (next_u64 rng).1)

-- Filling a buffer yields as many bytes as it is long, each of them a byte.
pub fill_bytes-All :
    (n : ℕ) (rng : DetRng) → (length (fill_bytes n rng).0 ≡ n) × All IsByte (fill_bytes n rng).0
unfolding fill_bytes
fill_bytes-All n rng =
    (length-fill_chunks ((n + 7) / 8) n rng (omega arith), fill_chunks-All ((n + 7) / 8) n rng)

-- Two buffers, one after the other.
abbrev then_fill : List ℕ × DetRng → (DetRng → List ℕ × DetRng) → List ℕ × DetRng
then_fill (bytes, rng) fill = let (more, rng') = fill rng in (bytes ++ more, rng')

fill_chunks-add :
    (k chunks m all n n' : ℕ) (rng : DetRng)
    → all ≡ k + chunks
    → n ≡ 8 * k + m
    → n' ≡ 8 * k
    → fill_chunks all n rng ≡ then_fill (fill_chunks k n' rng) (fill_chunks chunks m)
unfolding fill_chunks
fill_chunks-add zero chunks m all n n' rng a e e' =
    let all_same : all ≡ chunks = omega (arith, a) in
    let same : n ≡ m = omega (arith, e) in rw (all_same, same) refl
fill_chunks-add (suc k) chunks m zero n n' rng a e e' = absurd (omega arith)
fill_chunks-add (suc k) chunks m (suc all) n n' rng a e e' =
    let x = (next_u64 rng).0 in
    let whole : min 8 n ≡ 8 = omega arith in
    let whole' : min 8 n' ≡ 8 = omega arith in
    rw (whole, whole')
      (ap (λ r. (take 8 (to_le_bytes x) ++ r.0, r.1))
          (fill_chunks-add k chunks m all (n - 8) (n' - 8) (next_u64 rng).1 (omega arith)
            (omega arith) (omega arith))
        ∙ ap (λ l. (l, (fill_chunks chunks m (fill_chunks k (n' - 8) (next_u64 rng).1).1).1))
            (sym (
              append_assoc (take 8 (to_le_bytes x)) (fill_chunks k (n' - 8) (next_u64 rng).1).0 _)))

-- Filling a buffer of whole chunks and then another one draws the same bytes as filling one
-- buffer that is as long as both, and leaves the same generator.
pub fill_bytes-add :
    (k m : ℕ) (rng : DetRng)
    → fill_bytes (8 * k + m) rng ≡ then_fill (fill_bytes (8 * k) rng) (fill_bytes m)
unfolding fill_bytes
fill_bytes-add k m rng =
    let chunks : (8 * k + 7) / 8 ≡ k = omega arith in
    rw chunks (fill_chunks-add k ((m + 7) / 8) m _ (8 * k + m) (8 * k) rng (omega arith) refl refl)
