-- ===== src/Membox/Tests.antt =====
-- Runs of the box, and its theorems at a small pool.
use record_lib.Base.{
  ℕ, suc, ◌+◌, ◌*◌, ◌<◌, ◌≡◌, refl, inl, inr, true, false, none, some, [], ◌∷◌, arith, Returns,
}
use record_lib.Base.Align.{align_u32}
use record_lib.Membox.{
  Mempool, Membox, sizeof_memblock, page_size, new_membox, mempool_alloc, box_alloc, box_free,
}
use record_lib.Membox.Inv.{IsPool}
use record_lib.Membox.Alloc.{Claimed, mempool_alloc-Claimed}
use record_lib.Membox.Layout.{new_membox_overruns}
use record_lib.Membox.Free.{Restored, box_free-box_alloc}

-- Three blocks, of which the middle one is used.
abbrev pool : Mempool
pool = record {
  addr = 4096;
  length = 4096;
  off_t = 0;
  block_num = 3;
  free_num = 2;
  pa = 4160;
  blocks =
      record { seq = 0; mp = 0 } ∷ record { seq = 1; mp = 4096 } ∷ record { seq = 0; mp = 0 } ∷ [];
}

pool-IsPool : IsPool pool
pool-IsPool = record {
  array = refl;
  counted = refl;
  small = omega arith;
  marked = (inl refl, (inr (refl, refl), (inl refl, tt)));
}

abbrev full_pool : Mempool
full_pool = record pool { block_num = 1; free_num = 0; blocks = record { seq = 1; mp = 4096 } ∷ [] }

full_pool-IsPool : IsPool full_pool
full_pool-IsPool = record {
  array = refl;
  counted = refl;
  small = omega arith;
  marked = (inr (refl, refl), tt);
}

-- The search starts at index 1 and takes block 2.
alloc_runs : Returns (λ out. out.0 ≡ some 2) (mempool_alloc pool)
unfolding mempool_alloc
alloc_runs = Returns.returns refl

mempool_alloc-Claimed_example :
    Returns (λ out. Claimed pool out × IsPool out.1 × (2 ≡ suc out.1.free_num)) (mempool_alloc pool)
mempool_alloc-Claimed_example = mempool_alloc-Claimed pool-IsPool (omega arith)

abbrev box : Membox
box = record { mbsize = 128; poolsize = 4096; pool = none }

box_free-box_alloc_example :
    Returns
      (λ (got, m').
        (addr : ℕ) × (got ≡ some addr)
        × Returns
            (λ (was_used, m'').
              (was_used ≡ true) × Restored pool m'' × (box_free 40 addr m'' ≡ some (false, m'')))
            (box_free 40 addr m'))
      (box_alloc 40 (record box { pool = some pool }))
box_free-box_alloc_example = box_free-box_alloc 40 (omega arith) pool-IsPool box (omega arith)

-- A page for objects of 5000 bytes.
new_membox_overruns_example :
    (p : Mempool) × ((new_membox 5000 (some 1000) 4096).pool ≡ some p)
    × (1000 + align_u32 4096 page_size < p.pa + p.block_num * sizeof_memblock 5000)
new_membox_overruns_example =
    new_membox_overruns 5000 1000 4096 (omega arith) (omega arith) (omega arith) (omega arith)
      (omega arith)
