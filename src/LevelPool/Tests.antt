-- ===== src/LevelPool/Tests.antt =====
-- Runs of the pool with levels, and its theorems at two levels.
use record_lib.Base.{
  ◌+◌, ◌≤◌, ◌<◌, ◌≡◌, refl, Option, none, some, List, [], ◌∷◌, ◌==◌, if◌then◌else◌, arith, Returns,
  ◌>>=◌,
}
use record_lib.Links.{Ptr, node, Heap, modify, set_next, set_prev, set_val, link_back}
use record_lib.Slab.{SlabPool, sizeof_block, take_block, block_loop, release_in}
use record_lib.LevelPool.{
  LevelPool, level_alloc, level_free, level_of, highest_bit, mbsize_of, new_level_pool,
}
use record_lib.LevelPool.Inv.{HeldLevels, AllLevels}
use record_lib.LevelPool.Sizes.{level_of-mbsize}
use record_lib.LevelPool.Alloc.{AllocatedAt, level_alloc-AllocatedAt}
use record_lib.LevelPool.Free.{this, above, ReturnedAt, level_free-ReturnedAt}
use record_lib.Slab.Free.{Uses}

-- Two levels for blocks of 16 and 32 bytes. On the first one a block is free and one is used.
abbrev heap : Heap Ptr
heap a =
    if a == 96
    then some (node 0 0 0)
    else if a == 136
    then some (node 64 0 0)
    else if a == 544
    then some (node 512 0 0)
    else none

abbrev small_pool : SlabPool
small_pool = record { addr = 64; usedhead = 136; freehead = 96; length = 112; off_t = 0 }

abbrev large_pool : SlabPool
large_pool = record { addr = 512; usedhead = 544; freehead = 0; length = 88; off_t = 0 }

abbrev two_levels : LevelPool
two_levels = record {
  heap = heap;
  levels =
      record { pools = small_pool ∷ []; mbsize = 40; poolsize = 3072 }
      ∷ record { pools = large_pool ∷ []; mbsize = 56; poolsize = 4096 }
      ∷ [];
}

abbrev held : HeldLevels
held =
    ((small_pool, (96, 0) ∷ [], (136, 64) ∷ []) ∷ [])
    ∷ ((large_pool, [], (544, 512) ∷ []) ∷ [])
    ∷ []

held-AllLevels : AllLevels heap held
held-AllLevels = (
  (
    record {
      free_chain = (omega arith, refl, tt);
      used_chain = (omega arith, refl, tt);
      free_head = refl;
      used_head = refl;
      owned = (refl, tt);
      free_distinct = (refl, tt);
      used_distinct = (refl, tt);
      apart = λ a i. ground arith;
    },
    λ a i. refl,
    refl,
    tt,
  ),
  λ a i. ground arith,
  λ m i. ground arith,
  (
    (
      record {
        free_chain = tt;
        used_chain = (omega arith, refl, tt);
        free_head = refl;
        used_head = refl;
        owned = (refl, tt);
        free_distinct = tt;
        used_distinct = (refl, tt);
        apart = λ a i. absurd (ground arith);
      },
      λ a i. refl,
      refl,
      tt,
    ),
    λ a i. refl,
    λ m i. refl,
    tt,
  ),
)

level_alloc-AllocatedAt_example :
    Returns
      (λ out. AllocatedAt (level_of 40 17) held heap (out.0, out.1.levels, out.1.heap))
      (level_alloc 1 none 17 two_levels)
unfolding level_of highest_bit
level_alloc-AllocatedAt_example =
    level_alloc-AllocatedAt 1 none 17 two_levels held (refl, (refl, tt)) held-AllLevels refl

level_free-ReturnedAt_example :
    Returns (λ t. ReturnedAt 544 held heap (t.levels, t.heap)) (level_free 568 two_levels)
level_free-ReturnedAt_example =
    level_free-ReturnedAt two_levels 544 held (refl, (refl, tt)) held-AllLevels
      (above (this (Uses.here [] [] 512)))

level_of-mbsize_example :
    (17 ≤ 16 → 17 + sizeof_block ≤ mbsize_of 16 (level_of (mbsize_of 16 0) 17))
    × (16 < 17 → mbsize_of 16 (level_of (mbsize_of 16 0) 17) < 17 + sizeof_block)
level_of-mbsize_example = level_of-mbsize 16 17 (omega arith)

-- What a new pool answers to two requests, and again after the first block is given back.
abbrev answers : Option (List (Option Ptr))
answers = do
  s ← new_level_pool 90 8 (some 4096 ∷ some 8192 ∷ []) (λ a. none)
  (a, s) ← level_alloc 90 none 8 s
  (b, s) ← level_alloc 90 none 100 s
  (c, s) ← level_alloc 90 none 300 s
  s ← level_free 8248 s
  (d, s) ← level_alloc 90 none 64 s
  some (a ∷ b ∷ c ∷ d ∷ [])

-- The second block has 16 bytes for 100.
answers_run : answers ≡ some (some 4152 ∷ some 8248 ∷ none ∷ some 8248 ∷ [])
unfolding new_level_pool level_alloc level_free level_of highest_bit take_block block_loop
    release_in set_next modify link_back set_prev set_val
answers_run = refl
