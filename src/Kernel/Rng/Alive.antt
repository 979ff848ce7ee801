-- ===== src/Kernel/Rng/Alive.antt =====
-- The states of the generator (`DetRng`, kernel/src/net/mesh.rs).
use Prim.Native.Nat.{bit_xor}
use apex_os_rv.Prelude.{ℕ, ◌*◌, ◌/◌, ◌<◌, ◌≢◌, arith}
use apex_os_rv.Kernel.Watchdog.{u64, u64_mod}
use apex_os_rv.Kernel.Rng.{DetRng, right_12, left_25, right_27, next_u64}
use apex_os_rv.Kernel.Rng.Xor.{bit_xor-zero, bit_xor-width}

-- A u64 that is not zero.
abbrev pub NonzeroU64 : ℕ → Type 0
NonzeroU64 x = (0 < x) × (x < u64_mod)

-- A number that differs from `y`, both of 64 bits.
xor-NonzeroU64 : (x y : ℕ) → x < u64_mod → y < u64_mod → x ≢ y → NonzeroU64 (bit_xor x y)
xor-NonzeroU64 x y h k apart = (
  ground (arith, bit_xor-zero x y),
  omega (arith, bit_xor-width x y 64 (omega arith) (omega arith)),
)

right_12-NonzeroU64 : (x : ℕ) → NonzeroU64 x → NonzeroU64 (right_12 x)
unfolding right_12
right_12-NonzeroU64 x h = xor-NonzeroU64 x (x / 4096) h.1 (omega arith) (λ e. omega arith)

left_25-NonzeroU64 : (x : ℕ) → NonzeroU64 x → NonzeroU64 (left_25 x)
unfolding left_25
left_25-NonzeroU64 x h = xor-NonzeroU64 x (u64 (x * 33554432)) h.1 (omega arith) (λ e. omega arith)

right_27-NonzeroU64 : (x : ℕ) → NonzeroU64 x → NonzeroU64 (right_27 x)
unfolding right_27
right_27-NonzeroU64 x h = xor-NonzeroU64 x (x / 134217728) h.1 (omega arith) (λ e. omega arith)

scrambled-NonzeroU64 : (x : ℕ) → NonzeroU64 x → NonzeroU64 (u64 (x * 0x2545_F491_4F6C_DD1D))
scrambled-NonzeroU64 x h = (omega arith, omega arith)

-- From a state that is a u64 and not zero, the next state and the number that is drawn are u64
-- and not zero again.
pub next_u64-NonzeroU64 :
    (rng : DetRng)
    → NonzeroU64 rng.state
    → NonzeroU64 (next_u64 rng).0 × NonzeroU64 (next_u64 rng).1.state
unfolding next_u64
next_u64-NonzeroU64 rng h =
    let alive =
      right_27-NonzeroU64 (left_25 (right_12 rng.state))
        (left_25-NonzeroU64 (right_12 rng.state) (right_12-NonzeroU64 rng.state h)) in
    (scrambled-NonzeroU64 _ alive, alive)
