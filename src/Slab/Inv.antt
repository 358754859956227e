-- ===== src/Slab/Inv.antt =====
-- The lists of a pool of src/mem_pool/pure_slab.cpp, and of a whole allocator.
use record_lib.Base.{
  ℕ, ◌+◌, ◌%◌, ◌==◌, ◌||◌, Bool, ◌≡◌, List, [], ◌∷◌, ◌++◌, false, length, u32_mod,
}
use record_lib.Links.{Ptr, null, Heap}
use record_lib.Links.Seg.{Cells, first, Distinct, Seg, SameOutside}
use record_lib.Links.Back.{Apart, frame_apart, has-left, has-right}
use record_lib.Slab.{SlabPool, Slab}

-- Every block names the pool.
abbrev pub Owned : Ptr → Cells Ptr → Type 0
Owned mp [] = Unit
Owned mp ((_, v) ∷ xs) = (v ≡ mp) × Owned mp xs

pub record IsPool (h : Heap Ptr) (p : SlabPool) (free used : Cells Ptr) : Type 0 where
  pub free_chain : Seg h null null free
  pub used_chain : Seg h null null used
  pub free_head : p.freehead ≡ first free null
  pub used_head : p.usedhead ≡ first used null
  pub owned : Owned p.addr used
  pub free_distinct : Distinct free
  pub used_distinct : Distinct used
  pub apart : Apart free used

-- A pool keeps its lists when memory changes outside its blocks.
pub IsPool-frame :
    {h g : Heap Ptr} {p : SlabPool} {free used : Cells Ptr} (xs : Cells Ptr)
    → SameOutside xs h g
    → Apart free xs
    → Apart used xs
    → IsPool h p free used
    → IsPool g p free used
IsPool-frame {h} {g} {free} {used} xs same apart apart' is = record {
  free_chain = frame_apart h g null null xs free same apart is.free_chain;
  used_chain = frame_apart h g null null xs used same apart' is.used_chain;
  free_head = is.free_head;
  used_head = is.used_head;
  owned = is.owned;
  free_distinct = is.free_distinct;
  used_distinct = is.used_distinct;
  apart = is.apart;
}

-- A pool with its two lists.
abbrev pub Held : Type 0
Held = SlabPool × Cells Ptr × Cells Ptr

abbrev pub pools_of : List Held → List SlabPool
pools_of [] = []
pools_of ((p, _, _) ∷ hs) = p ∷ pools_of hs

abbrev pub cells_of : List Held → Cells Ptr
cells_of [] = []
cells_of ((p, free, used) ∷ hs) = (free ++ used) ++ cells_of hs

abbrev pub used_count : List Held → ℕ
used_count [] = 0
used_count ((p, free, used) ∷ hs) = length used + used_count hs

abbrev pub has_addr : Ptr → List Held → Bool
has_addr a [] = false
has_addr a ((p, _, _) ∷ hs) = (a == p.addr) || has_addr a hs

-- Every pool has its lists, no block is on two lists, and no two pools have one address.
abbrev pub AllPools : Heap Ptr → List Held → Type 0
AllPools h [] = Unit
AllPools h ((p, free, used) ∷ hs) =
    IsPool h p free used
    × Apart (free ++ used) (cells_of hs)
    × (has_addr p.addr hs ≡ false)
    × AllPools h hs

pub record IsSlab (s : Slab) (hs : List Held) : Type 0 where
  pub pools : s.pools ≡ pools_of hs
  pub all : AllPools s.heap hs
  pub count : s.alloced_num ≡ used_count hs % u32_mod

pub AllPools-frame :
    {h g : Heap Ptr} (xs : Cells Ptr) (hs : List Held)
    → SameOutside xs h g
    → Apart (cells_of hs) xs
    → AllPools h hs
    → AllPools g hs
AllPools-frame xs [] same apart all = tt
AllPools-frame xs ((p, free, used) ∷ hs) same apart (is, away, unlike, all) =
    let here = free ++ used in
    let there = cells_of hs in
    (
      IsPool-frame xs same (λ a i. apart a (has-left a here there (has-left a free used i)))
          (λ a i. apart a (has-left a here there (has-right a free used i))) is,
      away,
      unlike,
      AllPools-frame xs hs same (λ a i. apart a (has-right a here there i)) all,
    )
