-- ===== src/Kernel/Dma.antt =====
-- The DMA arena of the network driver (`RvHal`, kernel/src/net/mod.rs): a bump allocator over 64
-- pages. A failed assertion is `none`: the panic handler ends the kernel.
pub mod Arena
use mathlib.Core.Option.{some_inj}
use apex_os_rv.Prelude.{
  subst, ℕ, zero, suc, ◌+◌, ◌*◌, ◌%◌, ◌≤◌, ◌<◌, ◌≡◌, ◌↔◌, ◌⊎◌, inl, inr, refl, Bool, true, false,
  Option, none, some, List, [], ◌∷◌, leb, All, ◌>>=◌, Bool-cases, if◌then◌else◌, arith,
}

abbrev pub page_size : ℕ
page_size = 4096

abbrev pub arena_pages : ℕ
arena_pages = 64

-- `usize` arithmetic without overflow checks.
abbrev pub usize : ℕ → ℕ
usize n = n % 18446744073709551616

-- A buffer handed out: its address and its length in pages.
pub record Buffer : Type 0 where
  pub address : ℕ
  pub pages : ℕ

-- `arena` is the address of the arena, the state is `DMA_NEXT`. The result is the buffer and the new
-- state.
unfoldable pub dma_alloc : ℕ → ℕ → ℕ → Option (Buffer × ℕ)
dma_alloc arena next pages =
    if leb (usize (next + pages)) arena_pages
    then some (record { address = arena + next * page_size; pages = pages }, usize (next + pages))
    else none

-- The allocations of a run, for the sizes that are asked for, in order.
unfoldable pub dma_allocs : ℕ → ℕ → List ℕ → Option (List Buffer × ℕ)
dma_allocs arena next [] = some ([], next)
dma_allocs arena next (pages ∷ sizes) = dma_alloc arena next pages >>= λ got.
    dma_allocs arena got.1 sizes >>= λ more. some (got.0 ∷ more.0, more.1)
