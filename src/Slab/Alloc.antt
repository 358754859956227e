-- ===== src/Slab/Alloc.antt =====
-- `slab_alloc` and `slab_free` of src/mem_pool/pure_slab.cpp on an allocator with several pools.
use record_lib.Base.{
  ℕ, suc, ◌+◌, ◌%◌, ◌==◌, ◌||◌, Bool, ◌∙◌, ◌≡◌, ◌<◌, ◌≤◌, ◌^◌, refl, sym, ap, List, [], ◌∷◌, ◌++◌,
  false, true, Option, some, u32_mod, arith, Returns, returns, bind, mono, inl, inr, Bool-cases,
}
use record_lib.Links.{Ptr, null, Heap}
use record_lib.Links.Seg.{Cells, has, SameOutside, not-has-append, has-append}
use record_lib.Links.Back.{Apart-sym}
use record_lib.Slab.{SlabPool, Slab, at_limit, chain_alloc, slab_alloc}
use record_lib.Slab.Inv.{
  IsPool, Held, pools_of, cells_of, used_count, has_addr, AllPools, AllPools-frame, IsPool-frame,
  IsSlab,
}
use record_lib.Slab.Take.{Taken, take_block-Taken}

-- Some pool has a free block.
abbrev pub has_free : List Held → Bool
has_free [] = false
has_free ((p, [], used) ∷ hs) = has_free hs
has_free ((p, c ∷ free, used) ∷ hs) = true

-- The first free block of the first pool that has one becomes the first used one of its pool.
pub data Takes : List Held → Ptr → List Held → Type 0 where
  here :
      {p q : SlabPool} {free used : Cells Ptr} {hs : List Held} (b v : Ptr)
      → q.addr ≡ p.addr
      → Takes ((p, (b, v) ∷ free, used) ∷ hs) b ((q, free, (b, p.addr) ∷ used) ∷ hs)
  there :
      {p : SlabPool} {used : Cells Ptr} {hs ks : List Held} {b : Ptr}
      → Takes hs b ks
      → Takes ((p, [], used) ∷ hs) b ((p, [], used) ∷ ks)

-- A move between the lists of a pool changes none of its addresses.
has-moved :
    (a b v w : Ptr) (free used : Cells Ptr)
    → has a (free ++ (b, w) ∷ used) ≡ has a ((b, v) ∷ free ++ used)
has-moved a b v w free used =
    has-append a free ((b, w) ∷ used)
    ∙ swap (has a free) (a == b) (has a used)
    ∙ ap (λ x. (a == b) || x) (sym (has-append a free used))
  where
    swap : (x y z : Bool) → (x || (y || z)) ≡ (y || (x || z))
    swap x y z = ground arith

pub Takes-has :
    {hs ks : List Held} {b : Ptr} (a : Ptr)
    → Takes hs b ks
    → has a (cells_of ks) ≡ has a (cells_of hs)
Takes-has a (here {p} {free} {used} {hs} b v e) =
    has-append a (free ++ (b, p.addr) ∷ used) (cells_of hs)
    ∙ ap (λ x. x || has a (cells_of hs)) (has-moved a b v p.addr free used)
    ∙ sym (has-append a ((b, v) ∷ free ++ used) (cells_of hs))
Takes-has a (there {used} {hs} {ks} t) =
    has-append a used (cells_of ks)
    ∙ ap (λ x. has a used || x) (Takes-has a t)
    ∙ sym (has-append a used (cells_of hs))

pub Takes-has_addr :
    {hs ks : List Held} {b : Ptr} (m : Ptr) → Takes hs b ks → has_addr m ks ≡ has_addr m hs
Takes-has_addr m (here {hs} b v e) = ap (λ x. (m == x) || has_addr m hs) e
Takes-has_addr m (there {p} t) = ap (λ x. (m == p.addr) || x) (Takes-has_addr m t)

Takes-used_count :
    {hs ks : List Held} {b : Ptr} → Takes hs b ks → used_count ks ≡ suc (used_count hs)
Takes-used_count (here b v e) = omega arith
Takes-used_count (there t) = omega (arith, Takes-used_count t)

-- What a search along the chain leaves.
pub record Found (hs : List Held) (h : Heap Ptr) (out : Option Ptr × List SlabPool × Heap Ptr)
    : Type 0 where
  pub block : Ptr
  pub left : List Held
  pub found : out.0 ≡ some block
  pub takes : Takes hs block left
  pub pools : out.1 ≡ pools_of left
  pub all : AllPools out.2 left
  pub same : SameOutside (cells_of hs) h out.2

pub Taken-Found :
    {h : Heap Ptr} {p : SlabPool} (b v : Ptr) (free used : Cells Ptr) (hs : List Held)
    → AllPools h ((p, (b, v) ∷ free, used) ∷ hs)
    → (out : Ptr × SlabPool × Heap Ptr) → Taken b free used p h out
    → Found ((p, (b, v) ∷ free, used) ∷ hs) h (some out.0, out.1 ∷ pools_of hs, out.2)
Taken-Found {h} {p} b v free used hs (is, away, unlike, all) (c, q, g) t = record {
  block = b;
  left = (q, free, (b, p.addr) ∷ used) ∷ hs;
  found = ap some t.block;
  takes = here b v t.addr;
  pools = refl;
  all = (
    t.lists,
    λ a i. away a (sym (has-moved a b v p.addr free used) ∙ i),
    ap (λ m. has_addr m hs) t.addr ∙ unlike,
    AllPools-frame ((b, p.addr) ∷ free ++ used) hs t.same
        (Apart-sym ((b, v) ∷ free ++ used) (cells_of hs) away) all,
  );
  same = λ a o. t.same a (not-has-append a ((b, v) ∷ free ++ used) (cells_of hs) o).0;
}

-- A full pool in front of the others stays as it is.
pub Found-behind :
    {h : Heap Ptr} (p : SlabPool) (used : Cells Ptr) (hs : List Held)
    → AllPools h ((p, [], used) ∷ hs)
    → (out : Option Ptr × List SlabPool × Heap Ptr) → Found hs h out
    → Found ((p, [], used) ∷ hs) h (out.0, p ∷ out.1, out.2)
Found-behind p used hs (is, away, unlike, all) out f = record {
  block = f.block;
  left = (p, [], used) ∷ f.left;
  found = f.found;
  takes = there f.takes;
  pools = ap (λ ps. p ∷ ps) f.pools;
  all = (
    IsPool-frame (cells_of hs) f.same (λ a i. absurd (ground arith)) away is,
    λ a i. Takes-has a f.takes ∙ away a i,
    Takes-has_addr p.addr f.takes ∙ unlike,
    f.all,
  );
  same = λ a o. f.same a (not-has-append a used (cells_of hs) o).1;
}

pub full :
    {h : Heap Ptr} {p : SlabPool} {used : Cells Ptr}
    → IsPool h p [] used
    → (p.freehead == null) ≡ true
full is = let e = is.free_head in ground arith

pub not_full :
    {h : Heap Ptr} {p : SlabPool} {b v : Ptr} {free used : Cells Ptr}
    → IsPool h p ((b, v) ∷ free) used
    → (p.freehead == null) ≡ false
not_full is = let e = is.free_head in let live = is.free_chain.0 in ground arith

pub chain_alloc-Found :
    (fuel : ℕ) (memory : Option ℕ) (poolsize mbsize : ℕ) {h : Heap Ptr} (hs : List Held)
    → AllPools h hs
    → has_free hs ≡ true
    → Returns (Found hs h) (chain_alloc fuel memory poolsize mbsize (pools_of hs) h)
unfolding chain_alloc
chain_alloc-Found fuel m ps mb [] all some_free = absurd (ground arith)
chain_alloc-Found fuel m ps mb ((p, [], used) ∷ []) all some_free = absurd (ground arith)
chain_alloc-Found fuel m ps mb ((p, [], used) ∷ h₂ ∷ hs) all some_free = rw (full all.0) (
    bind (chain_alloc-Found fuel m ps mb (h₂ ∷ hs) all.3 some_free)
      λ out f. returns (Found-behind p used (h₂ ∷ hs) all out f))
chain_alloc-Found fuel m ps mb ((p, (b, v) ∷ free, used) ∷ []) all some_free = rw (not_full all.0) (
    bind (take_block-Taken b v free used all.0)
      λ out t. returns (Taken-Found b v free used [] all out t))
chain_alloc-Found fuel m ps mb ((p, (b, v) ∷ free, used) ∷ h₂ ∷ hs) all some_free =
    rw (not_full all.0) (
      bind (take_block-Taken b v free used all.0)
        λ out t. returns (Taken-Found b v free used (h₂ ∷ hs) all out t))

under_limit :
    (s : Slab) (n : ℕ)
    → s.max_num < 2 ^ 31
    → n ≤ s.max_num
    → s.alloced_num ≡ n % u32_mod
    → at_limit s ≡ false
    → n < s.max_num
under_limit s n small le count below = ground arith

-- What `slab_alloc` leaves when it hands out a block.
pub record Allocated (s : Slab) (hs : List Held) (out : Option Ptr × Slab) : Type 0 where
  pub block : Ptr
  pub left : List Held
  pub answer : out.0 ≡ some (block + s.alignedsize)
  pub takes : Takes hs block left
  pub slab : IsSlab out.1 left
  pub size : out.1.alignedsize ≡ s.alignedsize
  pub same : SameOutside (cells_of hs) s.heap out.1.heap

-- On a well-formed allocator that is below its maximum and has a free block in some pool,
-- slab_alloc takes the first free block of the first pool that has one and answers its data
-- address; the block heads the used list of its pool, the allocator stays well-formed (lists
-- linked both ways and disjoint, every used block naming its pool, the count right modulo 2^32),
-- and memory outside its blocks is unchanged.
pub slab_alloc-Allocated :
    (fuel : ℕ) (memory : Option ℕ) {s : Slab} {hs : List Held}
    → IsSlab s hs
    → at_limit s ≡ false
    → has_free hs ≡ true
    → Returns (Allocated s hs) (slab_alloc fuel memory s)
unfolding slab_alloc
slab_alloc-Allocated fuel memory {s} {hs} is below some_free =
    rw (below, is.pools)
      (bind (chain_alloc-Found fuel memory s.poolsize s.mbsize hs is.all some_free) λ out f.
        rw f.found (
          returns (record {
            block = f.block;
            left = f.left;
            answer = refl;
            takes = f.takes;
            slab = record {
              pools = f.pools;
              all = f.all;
              count = omega (arith, is.count, Takes-used_count f.takes);
            };
            size = refl;
            same = f.same;
          })))

-- When a well-formed allocator with a free block has a maximum below 2^31 and at most that many
-- blocks in use, slab_alloc leaves a well-formed allocator with at most the maximum in use.
pub slab_alloc_bounded :
    (fuel : ℕ) (memory : Option ℕ) {s : Slab} {hs : List Held}
    → IsSlab s hs
    → has_free hs ≡ true
    → s.max_num < 2 ^ 31
    → used_count hs ≤ s.max_num
    → Returns
        (λ out. (ks : List Held) × IsSlab out.1 ks × (used_count ks ≤ s.max_num))
        (slab_alloc fuel memory s)
slab_alloc_bounded fuel memory {s} {hs} is some_free small few = elim (Bool-cases (at_limit s)) [
  | inl e ↦ unfold slab_alloc in rw e (returns (hs, is, few))
  | inr e ↦ mono (slab_alloc-Allocated fuel memory is e some_free) λ out a. (
    a.left,
    a.slab,
    let below = under_limit s (used_count hs) small few is.count e in
        omega (arith, Takes-used_count a.takes),
  )
]
