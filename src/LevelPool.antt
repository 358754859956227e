-- ===== src/LevelPool.antt =====
-- `pure_slab_pool` of src/mem_pool/pure_slab_pool.cpp: chains of pools for blocks of doubling sizes.
-- A pool and its blocks are laid out as those of `pure_slab`, and the moves between its two lists
-- write the same fields in the same order. `none` is a fault or `exit`, when `malloc` gives NULL.
pub mod Sizes
pub mod Inv
pub mod Alloc
pub mod Free
mod Tests
use record_lib.Base.{
  ℕ, zero, suc, ◌+◌, ◌-◌, ◌*◌, ◌/◌, ◌%◌, ◌^◌, Bool, true, false, Option, none, some, List, [], ◌∷◌,
  ◌==◌, leb, ltb, if◌then◌else◌, ◌>>=◌, u32_mod,
}
use record_lib.Base.Align.{align_u32}
use record_lib.Links.{Ptr, null, Heap, load}
use record_lib.Slab.{SlabPool, sizeof_block, sizeof_pool, block_loop, take_block, release_in}

-- One level: `pmpool[i]`, `mbsize[i]` and `poolsize[i]`.
pub record Level : Type 0 where
  pub pools : List SlabPool
  pub mbsize : ℕ
  pub poolsize : ℕ

-- `lvl` is one less than the number of levels.
pub record LevelPool : Type 0 where
  pub heap : Heap Ptr
  pub levels : List Level

-- A new pool, before it is cut.
abbrev create_pool : (fresh : Option ℕ) → ℕ → Option SlabPool
create_pool none l = none
create_pool (some mp) l =
    some (record { addr = mp; usedhead = null; freehead = null; length = l; off_t = 0 })

pub init_memblock : ℕ → ℕ → SlabPool → Heap Ptr → Option (SlabPool × Heap Ptr)
init_memblock fuel ul p h = do
  let limit = (p.length + u32_mod - ul) % u32_mod
  h ← block_loop fuel ul limit (p.addr + sizeof_pool) null sizeof_pool h
  some (record p { freehead = p.addr + sizeof_pool; usedhead = null }, h)

-- The end of the chain: a new pool is chained behind the last one.
mp_grow :
    ℕ
    → (fresh : Option ℕ) (poolsize mbsize : ℕ) → SlabPool
    → Heap Ptr
    → Option (Ptr × List SlabPool × Heap Ptr)
unfolding init_memblock
mp_grow fuel fresh poolsize mbsize p h = do
  q ← create_pool fresh poolsize
  (q, h) ← init_memblock fuel mbsize q h
  (b, q, h) ← take_block q h
  some (b, p ∷ q ∷ [], h)

-- `MPAlloc`: the first pool with a free block gives it. The result is the block.
pub mp_alloc :
    ℕ
    → (fresh : Option ℕ) (poolsize mbsize : ℕ) → List SlabPool
    → Heap Ptr
    → Option (Ptr × List SlabPool × Heap Ptr)
unfolding mp_grow
mp_alloc fuel fresh poolsize mbsize [] h = none
mp_alloc fuel fresh poolsize mbsize (p ∷ []) h =
    if p.freehead == null
    then mp_grow fuel fresh poolsize mbsize p h
    else do (b, p, h) ← take_block p h; some (b, p ∷ [], h)
mp_alloc fuel fresh poolsize mbsize (p ∷ q ∷ ps) h =
    let rest = mp_alloc fuel fresh poolsize mbsize (q ∷ ps) h in
    if p.freehead == null
    then (do (b, ps, h) ← rest; some (b, p ∷ ps, h))
    else do (b, p, h) ← take_block p h; some (b, p ∷ q ∷ ps, h)

-- The highest bit that is set, among the lowest `width`; the instruction `bsr` has 32.
pub highest_bit : (width n : ℕ) → ℕ
highest_bit zero n = 0
highest_bit (suc b) n = let rest = highest_bit b n in if leb (2 ^ b) n then b else rest

pub bsr : ℕ → ℕ
unfolding highest_bit
bsr n = highest_bit 32 n

-- The level for a length, from `mbsize[0]`. The length, an `s32`, is not negative here, and the quotient
-- fits an `int`.
pub level_of : (mbsize l : ℕ) → ℕ
unfolding bsr
level_of zero l = 0
level_of (suc m) l = let i = (l + sizeof_block - 1) / suc m in if i == 0 then 0 else bsr i

-- The inner `none` is NULL, for a level that is not there.
pub alloc_level :
    ℕ
    → (fresh : Option ℕ) (bitp : ℕ) → List Level
    → Heap Ptr
    → Option (Option Ptr × List Level × Heap Ptr)
unfolding mp_alloc
alloc_level fuel fresh bitp [] h = some (none, [], h)
alloc_level fuel fresh zero (l ∷ ls) h = do
  (b, ps, h) ← mp_alloc fuel fresh l.poolsize l.mbsize l.pools h
  some (some (b + sizeof_block), record l { pools = ps } ∷ ls, h)
alloc_level fuel fresh (suc bitp) (l ∷ ls) h = do
  (b, ls, h) ← alloc_level fuel fresh bitp ls h
  some (b, l ∷ ls, h)

-- `mbsize[0]`
abbrev pub first_mbsize : List Level → ℕ
first_mbsize [] = 0
first_mbsize (l ∷ ls) = l.mbsize

pub level_alloc : ℕ → (fresh : Option ℕ) (l : ℕ) → LevelPool → Option (Option Ptr × LevelPool)
unfolding alloc_level level_of
level_alloc fuel fresh l s = do
  (b, ls, h) ← alloc_level fuel fresh (level_of (first_mbsize s.levels) l) s.levels s.heap
  some (b, record s { levels = ls; heap = h })

-- The block goes back to the pool that it names, on whatever level that is.
pub free_levels : Ptr → Ptr → List Level → Heap Ptr → Option (List Level × Heap Ptr)
free_levels b mp [] h = none
free_levels b mp (l ∷ ls) h =
    let rest = free_levels b mp ls h in
    elim (release_in b mp l.pools h) [
      | some (ps, h) ↦ some (record l { pools = ps } ∷ ls, h)
      | none ↦ do (ls, h) ← rest; some (l ∷ ls, h)
    ]

pub level_free : Ptr → LevelPool → Option LevelPool
unfolding free_levels
level_free addr s = do
  let b = addr - sizeof_block
  n ← load b s.heap
  (ls, h) ← free_levels b n.val s.levels s.heap
  some (record s { levels = ls; heap = h })

-- The sizes of the constructor.
abbrev pub mbsize_of : (alignedsize i : ℕ) → ℕ
mbsize_of alignedsize i = (alignedsize * 2 ^ i + sizeof_block) % u32_mod

abbrev poolsize_of : (mbsize : ℕ) → ℕ
poolsize_of mbsize = align_u32 mbsize 16 * 64 % u32_mod

-- The levels from `i` on, one for each answer of `malloc`.
make_levels : ℕ → (alignedsize i : ℕ) → List (Option ℕ) → Heap Ptr → Option (List Level × Heap Ptr)
make_levels fuel alignedsize i [] h = some ([], h)
make_levels fuel alignedsize i (fresh ∷ more) h = do
  let mbsize = mbsize_of alignedsize i
  p ← create_pool fresh (poolsize_of mbsize)
  (p, h) ← init_memblock fuel mbsize p h
  (ls, h) ← make_levels fuel alignedsize (i + 1) more h
  some (record { pools = p ∷ []; mbsize = mbsize; poolsize = poolsize_of mbsize } ∷ ls, h)

-- The constructor, with the answers for its `lvl + 1` pools.
pub new_level_pool : ℕ → (size : ℕ) → List (Option ℕ) → Heap Ptr → Option LevelPool
unfolding make_levels
new_level_pool fuel size answers h = do
  (ls, h) ← make_levels fuel (align_u32 size 8) 0 answers h
  some (record { heap = h; levels = ls })
