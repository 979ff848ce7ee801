-- ===== src/Kernel/Rng.antt =====
-- The masking generator `DetRng` (kernel/src/net/mesh.rs), an xorshift64* over one u64. A buffer is
-- given by its length, and filling it yields its bytes.
pub mod Xor
pub mod Linear
pub mod Alive
pub mod Back
pub mod Fill
use Prim.Native.Nat.{bit_xor}
use apex_os_rv.Prelude.{ℕ, zero, suc, ◌+◌, ◌-◌, ◌*◌, ◌/◌, ◌%◌, min, List, [], ◌∷◌, ◌++◌, take}
use apex_os_rv.Kernel.Watchdog.{u64}

-- `DetRng`
pub record DetRng : Type 0 where
  pub state : ℕ

-- `DetRng::new`
abbrev pub seeded : ℕ → DetRng
seeded seed = record { state = seed }

-- `x ^= x >> 12`, `x ^= x << 25` and `x ^= x >> 27`
unfoldable pub right_12 : ℕ → ℕ
right_12 x = bit_xor x (x / 4096)

unfoldable pub left_25 : ℕ → ℕ
left_25 x = bit_xor x (u64 (x * 33554432))

unfoldable pub right_27 : ℕ → ℕ
right_27 x = bit_xor x (x / 134217728)

unfoldable pub next_u64 : DetRng → ℕ × DetRng
next_u64 rng =
    let x = right_27 (left_25 (right_12 rng.state)) in
    (u64 (x * 0x2545_F491_4F6C_DD1D), record { state = x })

unfoldable pub next_u32 : DetRng → ℕ × DetRng
next_u32 rng = let (x, rng') = next_u64 rng in (x / 4294967296, rng')

-- `n` bytes of a number, lowest first.
unfoldable pub le_bytes : ℕ → ℕ → List ℕ
le_bytes zero x = []
le_bytes (suc n) x = x % 256 ∷ le_bytes n (x / 256)

-- `u64::to_le_bytes`
abbrev pub to_le_bytes : ℕ → List ℕ
to_le_bytes x = le_bytes 8 x

-- The loop over `chunks_mut(8)`, with the number of chunks: the last one may be shorter.
unfoldable pub fill_chunks : ℕ → ℕ → DetRng → List ℕ × DetRng
fill_chunks zero n rng = ([], rng)
fill_chunks (suc chunks) n rng =
    let (x, rng') = next_u64 rng in
    let (rest, rng'') = fill_chunks chunks (n - 8) rng' in
    (take (min 8 n) (to_le_bytes x) ++ rest, rng'')

unfoldable pub fill_bytes : ℕ → DetRng → List ℕ × DetRng
fill_bytes n rng = fill_chunks ((n + 7) / 8) n rng
