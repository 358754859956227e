-- ===== src/Slab/Make.antt =====
-- The constructors of src/mem_pool/pure_slab.cpp.
use record_lib.Base.{
  ℕ, zero, suc, ◌+◌, ◌*◌, ◌^◌, ◌<◌, ◌≤◌, ◌≡◌, refl, [], ◌∷◌, true, some, arith, Returns, returns,
  bind,
}
use record_lib.Base.Align.{align_u32}
use record_lib.Links.{Ptr, Heap}
use record_lib.Slab.{SlabPool, Slab, new_slab, block_bytes, sizeof_pool}
use record_lib.Slab.Inv.{Held, IsSlab}
use record_lib.Slab.Init.{blocks, init_blocks-Cut}
use record_lib.Slab.Alloc.{has_free}
use record_lib.Slab.Zone.{creat_pool-zone}

-- An allocator whose blocks are all free.
pub record Made (num : ℕ) (s : Slab) : Type 0 where
  pub held : Held
  pub slab : IsSlab s (held ∷ [])
  pub some_free : has_free (held ∷ []) ≡ true
  pub limit : s.max_num ≡ num
  pub unused : s.alloced_num ≡ 0

some_blocks :
    (p : SlabPool) (pos ul n : ℕ) → 0 < n → has_free ((p, blocks pos ul n, []) ∷ []) ≡ true
some_blocks p pos ul zero big = absurd (omega arith)
some_blocks p pos ul (suc n) big = refl

-- The constructor, with enough fuel and given a zone that is not NULL, does not wrap the address
-- space and has room for one block besides 96 bytes, gives a well-formed allocator with one pool,
-- a free block, the given maximum and a count of 0.
pub new_slab-Made :
    (a k block_size pool_size num : ℕ) (h : Heap Ptr)
    → 0 < a
    → a + 64 < 2 ^ 64
    → 0 < block_bytes block_size
    → 96 + block_bytes block_size ≤ align_u32 pool_size 4096
    → align_u32 pool_size 4096 ≤ k * block_bytes block_size
    → Returns (Made num) (new_slab (suc (suc k)) (some a) block_size pool_size num h)
unfolding new_slab
new_slab-Made a k block_size pool_size num h placed low big room enough =
    let l = align_u32 pool_size 4096 in
    let (q, e, above, sum, near) = creat_pool-zone a l low (omega arith) (omega arith) in
    rw (e, new_slab)
      (bind
        (init_blocks-Cut k (block_bytes block_size) q h big (omega arith) (omega arith)
          (omega arith) (omega arith))
        λ out c. returns (record {
          held = (out.0, blocks (q.addr + sizeof_pool) (block_bytes block_size) c.number, []);
          slab = record { pools = refl; all = (c.lists, λ x i. refl, refl, tt); count = refl };
          some_free =
              some_blocks out.0 (q.addr + sizeof_pool) (block_bytes block_size) c.number
                c.some_block;
          limit = refl;
          unused = refl;
        }))
