-- ===== src/Slab/Zone.antt =====
-- A new pool in a new zone, as `slab_alloc` of src/mem_pool/pure_slab.cpp makes it when all are full.
use record_lib.Base.{
  ℕ, zero, suc, ◌+◌, ◌-◌, ◌*◌, ◌%◌, ◌^◌, ◌<◌, ◌≤◌, ◌==◌, ◌||◌, ◌∙◌, ◌≡◌, refl, sym, ap, List, [],
  ◌∷◌, ◌++◌, false, true, Option, some, u32_mod, arith, Returns, returns, bind, mono, inl, inr,
  Bool-cases,
}
use record_lib.Base.Align.{align_ptr, align_bounds}
use record_lib.Links.{Ptr, null, Heap}
use record_lib.Links.Seg.{Cells, has, SameOutside, has-append}
use record_lib.Slab.{SlabPool, creat_pool, take_block, grow, chain_alloc, sizeof_pool}
use record_lib.Slab.Inv.{IsPool, Held, pools_of, cells_of, has_addr, AllPools}
use record_lib.Slab.Init.{blocks, span, span-mul, init_blocks-Cut}
use record_lib.Slab.Take.{take_block-Taken}
use record_lib.Slab.Alloc.{has_free, full}

-- No block and no pool lies in the zone of `l` bytes at `a`.
abbrev pub Fresh : ℕ → ℕ → List Held → Type 0
Fresh a l hs =
    (x : Ptr) → a ≤ x → x < a + l → (has x (cells_of hs) ≡ false) × (has_addr x hs ≡ false)

blocks_bounds :
    (x pos ul n : ℕ) → has x (blocks pos ul n) ≡ true → 0 < ul → (pos ≤ x) × (x < pos + span ul n)
blocks_bounds x pos ul zero i big = absurd (ground arith)
blocks_bounds x pos ul (suc n) i big = elim (Bool-cases (x == pos)) [
  | inl e ↦ let e' : x ≡ pos = ground arith in (omega arith, omega arith)
  | inr e ↦
      let (low, high) = blocks_bounds x (pos + ul) ul n (ground arith) big in
      (omega arith, omega arith)
]

-- A new pool in the zone, with one block in use.
pub record Zoned (a l : ℕ) (h : Heap Ptr) (out : Ptr × SlabPool × Heap Ptr) : Type 0 where
  pub block : Ptr
  pub mp : Ptr
  pub free : Cells Ptr
  pub answer : out.0 ≡ block
  pub lists : IsPool out.2 out.1 free ((block, mp) ∷ [])
  pub inside : (x : Ptr) → has x (free ++ (block, mp) ∷ []) ≡ true → (a ≤ x) × (x < a + l)
  pub addr_low : a ≤ out.1.addr
  pub addr_high : out.1.addr < a + l
  pub same : SameOutside (free ++ (block, mp) ∷ []) h out.2

snoc_swap :
    (x b w : Ptr) (free : Cells Ptr) → has x (free ++ (b, w) ∷ []) ≡ ((x == b) || has x free)
snoc_swap x b w free = let e = has-append x free ((b, w) ∷ []) in ground arith

pub creat_pool-zone :
    (a l : ℕ)
    → a + 64 < 2 ^ 64
    → 64 ≤ l
    → l < u32_mod
    → (p : SlabPool) × (creat_pool (some a) l ≡ some p)
      × (a ≤ p.addr)
      × (p.addr + p.length ≡ a + l)
      × (l < p.length + 64)
unfolding creat_pool
creat_pool-zone a l small room word =
    let b = align_bounds 64 a 64 (omega arith) (omega arith) in
    let mp = align_ptr a 64 in
    let off = (mp - a) % 256 in
    (
      record {
        addr = mp;
        usedhead = null;
        freehead = null;
        length = (l + u32_mod - off) % u32_mod;
        off_t = off;
      },
      refl,
      b.0,
      omega arith,
      omega arith,
    )

module _ (a l ul k : ℕ) (big : 0 < ul) (placed : 0 < a) (low : a + 64 < 2 ^ 64) (room : 96 + ul ≤ l)
    (word : l < u32_mod) (enough : l ≤ k * ul) where
  Cut-take :
      (p : SlabPool) (h : Heap Ptr) (n : ℕ) (q : SlabPool) (g : Heap Ptr)
      → a ≤ p.addr
      → p.addr + p.length ≡ a + l
      → q.addr ≡ p.addr
      → sizeof_pool + n * ul ≤ p.length
      → 0 < n
      → IsPool g q (blocks (p.addr + sizeof_pool) ul n) []
      → SameOutside (blocks (p.addr + sizeof_pool) ul n) h g
      → Returns (Zoned a l h) (take_block q g)
  Cut-take p h zero q g above sum addr fits some_block is same = absurd (omega arith)
  Cut-take p h (suc n) q g above sum addr fits some_block is same =
      let pos = p.addr + sizeof_pool in
      let rest = blocks (pos + ul) ul n in
      mono (take_block-Taken pos null rest [] is) λ out t. record {
        block = pos;
        mp = q.addr;
        free = rest;
        answer = t.block;
        lists = t.lists;
        inside = λ x i.
            let (lo, hi) =
              blocks_bounds x pos ul (suc n) (sym (snoc_swap x pos q.addr rest) ∙ i) big in
            (omega arith, omega (arith, span-mul ul (suc n)));
        addr_low = omega (arith, t.addr);
        addr_high = omega (arith, t.addr);
        same = λ x o.
            let o' : has x ((pos, q.addr) ∷ rest) ≡ false = sym (snoc_swap x pos q.addr rest) ∙ o in
            t.same x (has-append x ((pos, q.addr) ∷ rest) [] ∙ ground arith) ∙ same x o';
      }

  -- What the search answers when the pool is chained behind the others.
  abbrev pub Chained : List SlabPool → Heap Ptr → Option Ptr × List SlabPool × Heap Ptr → Type 0
  Chained ps h (found, qs, g) =
      (out : Ptr × SlabPool × Heap Ptr) × (found ≡ some out.0)
      × (qs ≡ ps ++ out.1 ∷ [])
      × (g ≡ out.2)
      × Zoned a l h out

  grow-Zoned :
      (p : SlabPool) (h : Heap Ptr)
      → Returns (Chained (p ∷ []) h) (grow (suc (suc k)) (some a) l ul p h)
  unfolding grow
  grow-Zoned p h =
      let (q, e, above, sum, near) = creat_pool-zone a l low (omega arith) word in
      rw (e, grow)
        (bind (init_blocks-Cut k ul q h big (omega arith) (omega arith) (omega arith) (omega arith))
          λ (q', g) c.
            bind (Cut-take q h c.number q' g above sum c.addr c.fits c.some_block c.lists c.same)
              λ out z. returns (out, refl, refl, refl, z))

  pub chain_alloc-Zoned :
      (p : SlabPool) (used : Cells Ptr) (hs : List Held) (h : Heap Ptr)
      → AllPools h ((p, [], used) ∷ hs)
      → has_free hs ≡ false
      → Returns
          (Chained (p ∷ pools_of hs) h)
          (chain_alloc (suc (suc k)) (some a) l ul (p ∷ pools_of hs) h)
  unfolding chain_alloc
  chain_alloc-Zoned p used [] h all none_free = rw (full all.0) (grow-Zoned p h)
  chain_alloc-Zoned p used ((p₂, [], used₂) ∷ hs) h all none_free = rw (full all.0) (
      bind (chain_alloc-Zoned p₂ used₂ hs h all.3 none_free)
        λ (found, ps, g) (out, answer, chain, heap, z).
          returns (out, answer, ap (λ qs. p ∷ qs) chain, heap, z))
  chain_alloc-Zoned p used ((p₂, c ∷ free, used₂) ∷ hs) h all none_free = absurd (ground arith)
