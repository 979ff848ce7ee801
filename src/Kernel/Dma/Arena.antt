-- ===== src/Kernel/Dma/Arena.antt =====
-- The buffers of the DMA arena lie apart, and when it is exhausted (kernel/src/net/mod.rs).
use mathlib.Core.Option.{some_inj}
use apex_os_rv.Prelude.{
  subst, ℕ, ◌+◌, ◌*◌, ◌≤◌, ◌<◌, ◌≡◌, ◌↔◌, ◌⊎◌, inl, refl, Option, none, some, List, [], ◌∷◌, All,
  ◌>>=◌, arith, ◌++◌, ◌-◌, ap, inr,
}
use apex_os_rv.Kernel.Dma.{page_size, arena_pages, usize, Buffer, dma_alloc, dma_allocs}

abbrev pub ends_at : Buffer → ℕ
ends_at b = b.address + b.pages * page_size

-- A buffer lies between two addresses.
abbrev pub Within : ℕ → ℕ → Buffer → Type 0
Within lo hi b = (lo ≤ b.address) × (ends_at b ≤ hi)

abbrev pub Apart : Buffer → Buffer → Type 0
Apart b c = (ends_at b ≤ c.address) ⊎ (ends_at c ≤ b.address)

abbrev pub AreApart : List Buffer → Type 0
AreApart [] = Unit
AreApart (b ∷ bs) = All (Apart b) bs × AreApart bs

-- A request that no sum of the allocator wraps on: 64 pages below what a machine word counts.
abbrev pub IsRequest : ℕ → Type 0
IsRequest pages = pages + arena_pages < 18446744073709551616

dma_alloc-some :
    (arena next pages : ℕ) (b : Buffer) (next' : ℕ)
    → next ≤ arena_pages
    → IsRequest pages
    → dma_alloc arena next pages ≡ some (b, next')
    → (b.address ≡ arena + next * page_size)
      × (b.pages ≡ pages)
      × (next' ≡ next + pages)
      × (next' ≤ arena_pages)
unfolding dma_alloc
dma_alloc-some arena next pages b next' fits small e = ground arith

some-bind :
    {A B : Type 0} (o : Option A) (f : A → Option B) (b : B)
    → o >>= f ≡ some b
    → (a : A) × (o ≡ some a) × (f a ≡ some b)
some-bind none f b e = absurd (ground arith)
some-bind (some a) f b e = (a, refl, e)

-- The buffers lie in the pages from `lo` up to `hi` of the arena, in the order of their addresses,
-- and no two share a byte.
abbrev Carved : ℕ → ℕ → ℕ → List Buffer → Type 0
Carved arena lo hi bs =
    All (Within (arena + lo * page_size) (arena + hi * page_size)) bs × AreApart bs

Within-mono :
    (lo lo' hi hi' : ℕ) (bs : List Buffer)
    → lo' ≤ lo
    → hi ≤ hi'
    → All (Within lo hi) bs
    → All (Within lo' hi') bs
Within-mono lo lo' hi hi' [] down up all = tt
Within-mono lo lo' hi hi' (b ∷ bs) down up ((above, below), all) =
    ((omega arith, omega arith), Within-mono lo lo' hi hi' bs down up all)

Within-Apart :
    (lo hi : ℕ) (b : Buffer) (bs : List Buffer)
    → ends_at b ≤ lo
    → All (Within lo hi) bs
    → All (Apart b) bs
Within-Apart lo hi b [] h all = tt
Within-Apart lo hi b (c ∷ bs) h ((above, below), all) =
    (inl (omega arith), Within-Apart lo hi b bs h all)

abbrev Laid : ℕ → ℕ → List Buffer × ℕ → Type 0
Laid arena next (bs, last) = (next ≤ last) × (last ≤ arena_pages) × Carved arena next last bs

Laid-cons :
    (arena next pages : ℕ) (b : Buffer) (next' : ℕ) (more : List Buffer × ℕ)
    → b.address ≡ arena + next * page_size
    → b.pages ≡ pages
    → next' ≡ next + pages
    → Laid arena next' more
    → Laid arena next (b ∷ more.0, more.1)
Laid-cons arena next pages b next' (bs, last) at sized moved (up, fits, (within, apart)) =
    let after : ends_at b ≤ arena + next' * page_size = omega arith in
    let into =
      Within-mono (arena + next' * page_size) (arena + next * page_size) (arena + last * page_size)
        (arena + last * page_size) bs (omega arith) (omega arith) within in
    let beside =
      Within-Apart (arena + next' * page_size) (arena + last * page_size) b bs after within in
    (omega arith, fits, (((omega arith, omega arith), into), (beside, apart)))

dma_allocs-Laid :
    (arena next : ℕ) (sizes : List ℕ) (r : List Buffer × ℕ)
    → next ≤ arena_pages
    → All IsRequest sizes
    → dma_allocs arena next sizes ≡ some r
    → Laid arena next r
unfolding dma_allocs
dma_allocs-Laid arena next [] r fits small e =
    subst (Laid arena next) (some_inj.0 e) (omega arith, fits, (tt, tt))
dma_allocs-Laid arena next (pages ∷ sizes) r fits (small, smalls) e =
    let (got, alloc, e') = some-bind (dma_alloc arena next pages) _ r e in
    let (more, allocs, e'') = some-bind (dma_allocs arena got.1 sizes) _ r e' in
    let (at, sized, moved, fits') = dma_alloc-some arena next pages got.0 got.1 fits small alloc in
    subst (Laid arena next) (some_inj.0 e'') (
      Laid-cons arena next pages got.0 got.1 more at sized moved
        (dma_allocs-Laid arena got.1 sizes more fits' smalls allocs))

-- From a fresh arena, when all the requests of a run, each for fewer than 2^64 - 64 pages, are
-- granted: every buffer lies in the arena's 64 pages, and no two buffers share a byte.
pub dma_allocs-AreApart :
    (arena : ℕ) (sizes : List ℕ) (bs : List Buffer) (last : ℕ)
    → All IsRequest sizes
    → dma_allocs arena 0 sizes ≡ some (bs, last)
    → All (Within arena (arena + arena_pages * page_size)) bs × AreApart bs
dma_allocs-AreApart arena sizes bs last small e =
    let (up, fits, (within, apart)) =
      dma_allocs-Laid arena 0 sizes (bs, last) (omega arith) small e in
    (
      Within-mono (arena + 0 * page_size) arena (arena + last * page_size)
          (arena + arena_pages * page_size) bs (omega arith) (omega arith) within,
      apart,
    )

abbrev pub total : List ℕ → ℕ
total [] = 0
total (pages ∷ sizes) = pages + total sizes

-- The counter after every request of the run, from `next` on, stays within the arena.
abbrev pub StaysIn : ℕ → List ℕ → Type 0
StaysIn next sizes =
    (before after : List ℕ) → sizes ≡ before ++ after → usize (next + total before) ≤ arena_pages

granted :
    (arena next pages : ℕ)
    → usize (next + pages) ≤ arena_pages
    → dma_alloc arena next pages
      ≡ some (record { address = arena + next * page_size; pages = pages }, usize (next + pages))
unfolding dma_alloc
granted arena next pages fits = ground arith

refused :
    (arena next pages : ℕ) (got : Buffer × ℕ)
    → dma_alloc arena next pages ≡ some got
    → (usize (next + pages) ≤ arena_pages) × (got.1 ≡ usize (next + pages))
unfolding dma_alloc
refused arena next pages got e = ground arith

grants :
    (arena next : ℕ) (sizes : List ℕ)
    → StaysIn next sizes
    → (r : List Buffer × ℕ) × (dma_allocs arena next sizes ≡ some r)
unfolding dma_allocs
grants arena next [] fits = (([], next), refl)
grants arena next (pages ∷ sizes) fits =
    let b : Buffer = record { address = arena + next * page_size; pages = pages } in
    let first : usize (next + pages) ≤ arena_pages = omega (arith, fits (pages ∷ []) sizes refl) in
    let (r, e) = grants arena (usize (next + pages)) sizes (λ before after split.
      omega (arith, fits (pages ∷ before) after (ap (λ l. pages ∷ l) split))) in
    ((b ∷ r.0, r.1), rw (granted arena next pages first, e) refl)

-- A counter that lies in the arena, behind requests that were granted.
stays_in :
    (arena next : ℕ) (sizes : List ℕ) (r : List Buffer × ℕ)
    → next ≤ arena_pages
    → dma_allocs arena next sizes ≡ some r
    → StaysIn next sizes
unfolding dma_allocs
stays_in arena next sizes r fits e [] after split = omega arith
stays_in arena next [] r fits e (page ∷ before) after split = absurd (ground arith)
stays_in arena next (pages ∷ sizes) r fits e (page ∷ before) after split =
    let (got, alloc, e') = some-bind (dma_alloc arena next pages) _ r e in
    let (more, allocs, e'') = some-bind (dma_allocs arena got.1 sizes) _ r e' in
    let (small, moved) = refused arena next pages got alloc in
    let same : pages ≡ page = ground arith in
    let rest_same : sizes ≡ before ++ after = ground arith in
    let rest = stays_in arena got.1 sizes more (omega arith) allocs before after rest_same in
    omega (arith, rest, moved, same)

-- The requests of a run from a fresh arena, of any sizes, are all granted exactly when after each
-- of them the pages asked for so far, counted modulo 2^64, are at most 64.
pub dma_allocs-some_iff :
    (arena : ℕ) (sizes : List ℕ)
    → ((r : List Buffer × ℕ) × (dma_allocs arena 0 sizes ≡ some r))
      ↔ ((before after : List ℕ) → sizes ≡ before ++ after → usize (total before) ≤ arena_pages)
dma_allocs-some_iff arena sizes = (
  λ (r, e) before after split.
      omega (arith, stays_in arena 0 sizes r (omega arith) e before after split),
  λ fits. grants arena 0 sizes (λ before after split. omega (arith, fits before after split)),
)

-- For any pages of the arena that were handed out and any that follow them in it, a request for
-- 2^64 pages less the first in between is granted, and so are the others: the assertion of the
-- allocator passes on the sum that has wrapped. The third buffer then starts where the first
-- does, so that the two are not apart.
pub dma_allocs-wrapped :
    (arena k n : ℕ)
    → 0 < k
    → k ≤ arena_pages
    → 0 < n
    → n ≤ arena_pages
    → (a b c : Buffer) × (dma_allocs arena 0 (k ∷ (18446744073709551616 - k) ∷ n ∷ [])
        ≡ some (a ∷ b ∷ c ∷ [], n))
      × (a.address ≡ arena)
      × (c.address ≡ arena)
      × (¬ AreApart (a ∷ b ∷ c ∷ []))
unfolding dma_allocs
dma_allocs-wrapped arena k n some_k small_k some_n small_n =
    let first : usize (0 + k) ≡ k = omega arith in
    let wraps : usize (k + (18446744073709551616 - k)) ≡ 0 = omega arith in
    let third : usize (0 + n) ≡ n = omega arith in
    (
      record { address = arena + 0 * page_size; pages = k },
      record { address = arena + k * page_size; pages = 18446744073709551616 - k },
      record { address = arena + 0 * page_size; pages = n },
      rw
          (
            granted arena 0 k (omega arith),
            first,
            granted arena k (18446744073709551616 - k) (omega arith),
            wraps,
            granted arena 0 n (omega arith),
            third,
          )
          refl,
      omega arith,
      omega arith,
      λ ((ab, (ac, _)), _). elim ac [ inl over ↦ omega arith | inr over ↦ omega arith ],
    )
