-- ===== src/Slab/Tests.antt =====
-- Runs of the slab allocator, and its theorems at a small one.
use record_lib.Base.{
  ◌-◌, ◌>>=◌, ◌≡◌, refl, Option, none, some, List, [], ◌∷◌, ◌==◌, if◌then◌else◌, arith, Returns,
  u32_mod,
}
use record_lib.Links.{Ptr, node, Heap, modify, set_next, set_prev, set_val, link_back}
use record_lib.Slab.{
  SlabPool, Slab, new_slab, slab_alloc, slab_free, block_loop, chain_walk, creat_pool, init_blocks,
  take_block, grow, chain_alloc,
}
use record_lib.Slab.Inv.{Held, IsSlab}
use record_lib.Slab.Alloc.{Allocated, slab_alloc-Allocated}
use record_lib.Slab.Zone.{Fresh}
use record_lib.Slab.Grow.{Grown, slab_alloc-Grown}
use record_lib.Slab.Free.{here, Freed, slab_free-Freed}

abbrev answer : Option (Option Ptr × Slab) → Option Ptr
answer none = none
answer (some (b, s)) = b

abbrev empty_heap : Heap Ptr
empty_heap a = none

-- A zone of one page for blocks of 1000 bytes: three blocks of 1024 bytes with their heads.
abbrev small_slab : Option Slab
small_slab = new_slab 10 (some 64) 1000 4096 (u32_mod - 1) empty_heap

abbrev alloc_twice : Option (List (Option Ptr))
alloc_twice = do
  s ← small_slab
  (a, s) ← slab_alloc 10 none s
  (b, s) ← slab_alloc 10 none s
  (c, s) ← slab_alloc 10 none s
  (d, s) ← slab_alloc 10 none s
  s ← slab_free 120 s
  (e, s) ← slab_alloc 10 none s
  some (a ∷ b ∷ c ∷ d ∷ e ∷ [])

alloc_runs : alloc_twice ≡ some (some 120 ∷ some 1144 ∷ some 2168 ∷ none ∷ some 120 ∷ [])
unfolding new_slab slab_alloc slab_free creat_pool init_blocks take_block grow chain_alloc
    block_loop chain_walk set_next modify link_back set_prev set_val
alloc_runs = refl

-- A pool of two blocks, of which the second one is used.
abbrev heap : Heap Ptr
heap a = if a == 96 then some (node 0 0 0) else if a == 160 then some (node 64 0 0) else none

abbrev pool : SlabPool
pool = record { addr = 64; usedhead = 160; freehead = 96; length = 160; off_t = 0 }

abbrev slab : Slab
slab = record {
  heap = heap;
  pools = pool ∷ [];
  max_num = 2;
  alloced_num = 1;
  mbsize = 64;
  poolsize = 4096;
  alignedsize = 24;
}

abbrev held : List Held
held = (pool, (96, 0) ∷ [], (160, 64) ∷ []) ∷ []

slab-IsSlab : IsSlab slab held
slab-IsSlab = record {
  pools = refl;
  all = (
    record {
      free_chain = (omega arith, refl, tt);
      used_chain = (omega arith, refl, tt);
      free_head = refl;
      used_head = refl;
      owned = (refl, tt);
      free_distinct = (refl, tt);
      used_distinct = (refl, tt);
      apart = λ a i. ground arith;
    },
    λ a i. refl,
    refl,
    tt,
  );
  count = refl;
}

-- The same pool without its free block.
abbrev full_slab : Slab
full_slab = record slab { pools = record pool { freehead = 0 } ∷ [] }

abbrev full_held : List Held
full_held = (record pool { freehead = 0 }, [], (160, 64) ∷ []) ∷ []

full_slab-IsSlab : IsSlab full_slab full_held
full_slab-IsSlab = record {
  pools = refl;
  all = (
    record {
      free_chain = tt;
      used_chain = (omega arith, refl, tt);
      free_head = refl;
      used_head = refl;
      owned = (refl, tt);
      free_distinct = tt;
      used_distinct = (refl, tt);
      apart = λ a i. absurd (ground arith);
    },
    λ a i. refl,
    refl,
    tt,
  );
  count = refl;
}

slab_alloc-Allocated_example : Returns (Allocated slab held) (slab_alloc 1 none slab)
slab_alloc-Allocated_example = slab_alloc-Allocated 1 none slab-IsSlab refl refl

slab_free-Freed_example : Returns (Freed slab held 160) (slab_free 184 slab)
slab_free-Freed_example = slab_free-Freed slab-IsSlab (here [] [] 64)

full_held-Fresh : Fresh 8192 4096 full_held
full_held-Fresh x low high = (ground arith, ground arith)

slab_alloc-Grown_example :
    Returns (Grown 8192 4096 full_slab full_held) (slab_alloc 66 (some 8192) full_slab)
slab_alloc-Grown_example =
    slab_alloc-Grown 8192 64 full_slab-IsSlab refl refl (omega arith) (omega arith) full_held-Fresh
      (omega arith) (omega arith) (omega arith) (omega arith)

abbrev unlimited_slab : Slab
unlimited_slab = record slab { max_num = u32_mod - 1 }
