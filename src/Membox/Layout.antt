-- ===== src/Membox/Layout.antt =====
-- Where the blocks of src/mem_pool/p_membox.h lie: `creat_mempool`, `init_memblock` and the
-- addresses of the data.
use native.Mathlib.Nat.{div-le_self, mod-lt, mod-add-div', mul-mod_left, mul-div_cancel}
use record_lib.Base.{
  ℕ, ◌+◌, ◌-◌, ◌*◌, ◌/◌, ◌%◌, ◌^◌, ◌<◌, ◌≤◌, ◌≡◌, refl, sym, ap, false, some, [], arith, ltb,
  u32_mod, length-replicate,
}
use record_lib.Base.Align.{align_ptr, align_u32, align_bounds}
use record_lib.Membox.{
  Mempool, sizeof_memblock, creat_mempool, init_memblock, new_membox, init_pool, data_of, block_at,
  memblock_head, page_size,
}
use record_lib.Membox.Inv.{IsPool, free_count-replicate, BlocksOk-replicate}

pub sizeof_memblock_pos : (size_t : ℕ) → size_t + 100 < u32_mod → 16 ≤ sizeof_memblock size_t
sizeof_memblock_pos size_t small =
    let inner = align_bounds 32 size_t 8 (omega arith) (omega arith) in
    let outer = align_bounds 32 (align_u32 size_t 8 + 16) 64 (omega arith) (omega arith) in
    omega (arith, outer)

-- The pool starts at the first cache line of the zone, and its length is what is left of it.
creat_mempool-zone :
    (a l : ℕ)
    → a + 64 < 2 ^ 64
    → 64 ≤ l
    → l < u32_mod
    → (p : Mempool) × (creat_mempool (some a) l ≡ some p)
      × (a ≤ p.addr)
      × (p.addr + p.length ≡ a + l)
      × (p.length ≤ l)
      × (l < p.length + 64)
unfolding creat_mempool
creat_mempool-zone a l small room word =
    let b = align_bounds 64 a 64 (omega arith) (omega arith) in
    let mp = align_ptr a 64 in
    let off = (mp - a) % 256 in
    (
      record {
        addr = mp;
        length = (l + u32_mod - off) % u32_mod;
        off_t = off;
        block_num = 0;
        free_num = 0;
        pa = 0;
        blocks = [];
      },
      refl,
      b.0,
      omega arith,
      omega arith,
      omega arith,
    )

module _ (ul : ℕ) (p : Mempool) (pos : 0 < ul) (word : p.length < u32_mod) where
  init_memblock-IsPool :
      IsPool (init_memblock ul p)
      × ((init_memblock ul p).free_num ≡ (init_memblock ul p).block_num)
      × ((init_memblock ul p).pa ≡ p.addr + 64)
  unfolding init_memblock
  init_memblock-IsPool =
      let n = (p.length + 2 * u32_mod - ul - 64) % u32_mod / ul in
      (
        record {
          array = sym (length-replicate n (record { seq = 0; mp = 0 }));
          counted = sym (free_count-replicate n);
          small = omega (arith, div-le_self ((p.length + 2 * u32_mod - ul - 64) % u32_mod) ul);
          marked = BlocksOk-replicate p.addr n;
        },
        refl,
        refl,
      )

  init_memblock_fits :
      ul + 64 ≤ p.length
      → let q = init_memblock ul p in q.pa + q.block_num * ul + ul ≤ p.addr + p.length
  unfolding init_memblock
  init_memblock_fits room =
      let c : (p.length + 2 * u32_mod - ul - 64) % u32_mod ≡ p.length - ul - 64 = omega arith in
      let d = mod-add-div' (p.length - ul - 64) ul in rw c (omega arith)

  init_memblock_overruns :
      p.length < ul + 64
      → 2 * ul ≤ u32_mod
      → let q = init_memblock ul p in p.addr + p.length < q.pa + q.block_num * ul
  unfolding init_memblock
  init_memblock_overruns short half =
      let c : (p.length + 2 * u32_mod - ul - 64) % u32_mod ≡ p.length + u32_mod - ul - 64 =
        omega arith in
      let d = mod-add-div' (p.length + u32_mod - ul - 64) ul in
      let m = mod-lt (p.length + u32_mod - ul - 64) pos in rw c (omega arith)

-- For an object type below 2^32 - 100 bytes, a zone that does not wrap the address space, and a
-- pool size (rounded up to pages) of at least one block plus 128 bytes, the box has a well-formed
-- pool with all blocks free, and the array of blocks lies inside the zone.
pub new_membox_fits :
    (size_t a l : ℕ)
    → size_t + 100 < u32_mod
    → a + 64 < 2 ^ 64
    → sizeof_memblock size_t + 128 ≤ align_u32 l page_size
    → (p : Mempool) × ((new_membox size_t (some a) l).pool ≡ some p)
      × IsPool p
      × (p.free_num ≡ p.block_num)
      × (a ≤ p.pa)
      × (p.pa + p.block_num * sizeof_memblock size_t ≤ a + align_u32 l page_size)
unfolding new_membox
new_membox_fits size_t a l small low room =
    let ul = sizeof_memblock size_t in
    let pos = sizeof_memblock_pos size_t small in
    let (p, e, above, sum, le, near) =
      creat_mempool-zone a (align_u32 l page_size) low (omega arith) (omega arith) in
    let (is, all, pa) = init_memblock-IsPool ul p (omega arith) (omega arith) in
    let fits = init_memblock_fits ul p (omega arith) (omega arith) in
    (init_memblock ul p, ap (init_pool size_t) e, is, all, omega arith, omega arith)

-- When the pool size, rounded up to pages, is at least 64 bytes and less than one block plus 64
-- bytes, and two blocks take at most 2^32 bytes, the length left for the blocks underflows and the
-- array of blocks ends behind the zone; the object type is below 2^32 - 100 bytes and the zone
-- does not wrap the address space.
pub new_membox_overruns :
    (size_t a l : ℕ)
    → size_t + 100 < u32_mod
    → a + 64 < 2 ^ 64
    → 64 ≤ align_u32 l page_size
    → align_u32 l page_size < sizeof_memblock size_t + 64
    → 2 * sizeof_memblock size_t ≤ u32_mod
    → (p : Mempool) × ((new_membox size_t (some a) l).pool ≡ some p)
      × (a + align_u32 l page_size < p.pa + p.block_num * sizeof_memblock size_t)
unfolding new_membox
new_membox_overruns size_t a l small low room short half =
    let ul = sizeof_memblock size_t in
    let pos = sizeof_memblock_pos size_t small in
    let (p, e, above, sum, le, near) =
      creat_mempool-zone a (align_u32 l page_size) low room (omega arith) in
    let over = init_memblock_overruns ul p (omega arith) (omega arith) (omega arith) half in
    (init_memblock ul p, ap (init_pool size_t) e, omega arith)

-- For an object type below 2^32 - 100 bytes, the block of a block's data address is that block,
-- and the data addresses of two blocks are at least the size of a block apart.
pub block_at-data_of :
    (size_t : ℕ) (p : Mempool) (i j : ℕ)
    → size_t + 100 < u32_mod
    → (block_at size_t p (data_of size_t p i) ≡ some i)
      × (i < j → data_of size_t p i + sizeof_memblock size_t ≤ data_of size_t p j)
unfolding block_at
block_at-data_of size_t p i j small =
    let size = sizeof_memblock size_t in
    let pos = sizeof_memblock_pos size_t small in
    let off : data_of size_t p i - (p.pa + memblock_head) ≡ i * size = omega arith in
    let above : ltb (data_of size_t p i) (p.pa + memblock_head) ≡ false = ground arith in
    (
      rw (above, off, mul-mod_left i size, mul-div_cancel i {n = size} (omega arith)),
      λ lt. grind arith,
    )
