-- ===== src/Slab/Grow.antt =====
-- `slab_alloc` of src/mem_pool/pure_slab.cpp when every pool is full: a pool is made in a new zone.
use mathlib.Core.Path.{subst}
use record_lib.Base.{
  ℕ, suc, ◌+◌, ◌*◌, ◌^◌, ◌<◌, ◌≤◌, ◌==◌, ◌||◌, ◌∙◌, ◌≡◌, refl, sym, ap, List, [], ◌∷◌, ◌++◌, false,
  true, Option, none, some, u32_mod, arith, Returns, returns, bind, inl, inr, Bool-cases, ne_sym,
}
use record_lib.Links.{Ptr, Heap}
use record_lib.Links.Seg.{Cells, has, has-append}
use record_lib.Links.Back.{Apart, Apart-sym, has-left, has-right}
use record_lib.Slab.{SlabPool, Slab, at_limit, creat_pool, grow, chain_alloc, slab_alloc}
use record_lib.Slab.Inv.{
  IsPool, Held, pools_of, cells_of, used_count, has_addr, AllPools, AllPools-frame, IsSlab,
}
use record_lib.Slab.Alloc.{has_free, full}
use record_lib.Slab.Zone.{Fresh, chain_alloc-Zoned}

pools_of-append : (hs ks : List Held) → pools_of (hs ++ ks) ≡ pools_of hs ++ pools_of ks
pools_of-append [] ks = refl
pools_of-append ((p, _, _) ∷ hs) ks = ap (λ ps. p ∷ ps) (pools_of-append hs ks)

used_count-append : (hs ks : List Held) → used_count (hs ++ ks) ≡ used_count hs + used_count ks
used_count-append [] ks = omega arith
used_count-append ((p, _, _) ∷ hs) ks = omega (arith, used_count-append hs ks)

has_addr-append :
    (m : Ptr) (hs ks : List Held) → has_addr m (hs ++ ks) ≡ (has_addr m hs || has_addr m ks)
has_addr-append m [] ks = refl
has_addr-append m ((p, _, _) ∷ hs) ks = let e = has_addr-append m hs ks in ground arith

has-cells_of_append :
    (x : Ptr) (hs ks : List Held)
    → has x (cells_of (hs ++ ks)) ≡ (has x (cells_of hs) || has x (cells_of ks))
has-cells_of_append x [] ks = refl
has-cells_of_append x ((p, free, used) ∷ hs) ks =
    let e = has-cells_of_append x hs ks in
    let e₁ = has-append x (free ++ used) (cells_of (hs ++ ks)) in
    let e₂ = has-append x (free ++ used) (cells_of hs) in ground arith

chain_alloc_no_memory :
    (fuel l ul : ℕ) (p : SlabPool) (used : Cells Ptr) (hs : List Held) (h : Heap Ptr)
    → AllPools h ((p, [], used) ∷ hs)
    → has_free hs ≡ false
    → chain_alloc fuel none l ul (p ∷ pools_of hs) h ≡ some (none, p ∷ pools_of hs, h)
unfolding chain_alloc creat_pool grow
chain_alloc_no_memory fuel l ul p used [] h all none_free = rw (full all.0) refl
chain_alloc_no_memory fuel l ul p used ((p₂, [], used₂) ∷ hs) h all none_free =
    let rest = chain_alloc_no_memory fuel l ul p₂ used₂ hs h all.3 none_free in
    rw (full all.0, rest) refl
chain_alloc_no_memory fuel l ul p used ((p₂, c ∷ free, used₂) ∷ hs) h all none_free =
    absurd (ground arith)

-- A pool apart from the others joins the chain.
AllPools-snoc :
    {h : Heap Ptr} (hs : List Held) (q : SlabPool) (free used : Cells Ptr)
    → AllPools h hs
    → IsPool h q free used
    → Apart (cells_of hs) (free ++ used)
    → has_addr q.addr hs ≡ false
    → AllPools h (hs ++ (q, free, used) ∷ [])
AllPools-snoc [] q free used all is apart unlike = (is, λ a i. refl, refl, tt)
AllPools-snoc ((p, f, u) ∷ hs) q free used (is_p, away, alone, all) is apart unlike = (
  is_p,
  λ x i.
      let new : Held = (q, free, used) in
      let here = apart x (has-left x (f ++ u) (cells_of hs) i) in
      let e = has-append x (free ++ used) [] in
      let behind = away x i in has-cells_of_append x hs (new ∷ []) ∙ ground arith,
  has_addr-append p.addr hs ((q, free, used) ∷ [])
      ∙ (let ne : (p.addr == q.addr) ≡ false = ne_sym q.addr p.addr (ground arith) in ground arith),
  AllPools-snoc hs q free used all is (λ x i. apart x (has-right x (f ++ u) (cells_of hs) i))
      (ground arith),
)

-- What `slab_alloc` leaves when it hands out a block of a new pool.
pub record Grown (a l : ℕ) (s : Slab) (hs : List Held) (out : Option Ptr × Slab) : Type 0 where
  pub block : Ptr
  pub mp : Ptr
  pub pool : SlabPool
  pub free : Cells Ptr
  pub answer : out.0 ≡ some (block + s.alignedsize)
  pub slab : IsSlab out.1 (hs ++ (pool, free, (block, mp) ∷ []) ∷ [])
  pub inside : (x : Ptr) → has x (free ++ (block, mp) ∷ []) ≡ true → (a ≤ x) × (x < a + l)

-- When all pools of a well-formed allocator below its maximum are full and the memory answered for
-- a new zone is fresh, slab_alloc with enough fuel makes a pool in the zone and answers a block of
-- it; the new pool joins the chain in a well-formed allocator, and all of its blocks start inside
-- the zone. The zone is not NULL, does not wrap the address space, and its size is below 2^32 and
-- at least 96 bytes more than a block.
pub slab_alloc-Grown :
    (a k : ℕ) {s : Slab} {p : SlabPool} {used : Cells Ptr} {hs : List Held}
    → IsSlab s ((p, [], used) ∷ hs)
    → at_limit s ≡ false
    → has_free hs ≡ false
    → 0 < a
    → a + 64 < 2 ^ 64
    → Fresh a s.poolsize ((p, [], used) ∷ hs)
    → 0 < s.mbsize
    → 96 + s.mbsize ≤ s.poolsize
    → s.poolsize < u32_mod
    → s.poolsize ≤ k * s.mbsize
    → Returns (Grown a s.poolsize s ((p, [], used) ∷ hs)) (slab_alloc (suc (suc k)) (some a) s)
unfolding slab_alloc
slab_alloc-Grown a k {s} {p} {used} {hs} is below none_free placed low fresh big room word enough =
    let l = s.poolsize in
    let all_held = (p, [], used) ∷ hs in
    rw (below, is.pools)
      (bind
        (chain_alloc-Zoned a l s.mbsize k big placed low room word enough p used hs s.heap is.all
          none_free)
        λ (found, ps, g) ((b, q, g'), answer, chain, heap, z).
          let new : Held = (q, z.free, (z.block, z.mp) ∷ []) in
          let cells = z.free ++ (z.block, z.mp) ∷ [] in
          let apart : Apart (cells_of all_held) cells =
            Apart-sym cells (cells_of all_held)
              (λ x i. (fresh x (z.inside x i).0 (z.inside x i).1).0) in
          rw (answer, z.answer)
            (returns (record {
              block = z.block;
              mp = z.mp;
              pool = q;
              free = z.free;
              answer = refl;
              slab = record {
                pools = chain ∙ sym (pools_of-append all_held (new ∷ []));
                all =
                    subst (λ m. AllPools m (all_held ++ new ∷ [])) (sym heap)
                      (AllPools-snoc all_held q z.free ((z.block, z.mp) ∷ [])
                        (AllPools-frame cells all_held z.same apart is.all) z.lists apart
                        (fresh q.addr z.addr_low z.addr_high).1);
                count = omega (arith, is.count, used_count-append all_held (new ∷ []));
              };
              inside = z.inside;
            })))

-- When every pool of a well-formed allocator is full and no memory is answered, slab_alloc answers
-- NULL and leaves the allocator as it was.
pub slab_alloc_no_memory :
    (fuel : ℕ) {s : Slab} {p : SlabPool} {used : Cells Ptr} {hs : List Held}
    → IsSlab s ((p, [], used) ∷ hs)
    → has_free hs ≡ false
    → slab_alloc fuel none s ≡ some (none, s)
unfolding slab_alloc
slab_alloc_no_memory fuel {s} {p} {used} {hs} is none_free = elim (Bool-cases (at_limit s)) [
  | inl e ↦ rw e refl
  | inr e ↦
      let same : chain_alloc fuel none s.poolsize s.mbsize s.pools s.heap
          ≡ some (none, s.pools, s.heap) =
        subst (λ ps. chain_alloc fuel none s.poolsize s.mbsize ps s.heap ≡ some (none, ps, s.heap))
          (sym is.pools)
          (chain_alloc_no_memory fuel s.poolsize s.mbsize p used hs s.heap is.all none_free) in
      rw (e, same) refl
]
