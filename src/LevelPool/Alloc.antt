-- ===== src/LevelPool/Alloc.antt =====
-- `Alloc` of src/mem_pool/pure_slab_pool.cpp on pools of several levels, one of which has a free
-- block where it is wanted.
use mathlib.Core.Option
use record_lib.Base.{
  ℕ, zero, suc, ◌+◌, ◌||◌, ◌≡◌, ◌∙◌, sym, ap, Bool, true, false, Option, some, List, [], ◌∷◌, arith,
  Returns, returns, bind,
}
use record_lib.Links.{Ptr, Heap}
use record_lib.Links.Seg.{has, SameOutside, not-has-append, has-append}
use record_lib.Links.Back.{Apart-sym}
use record_lib.Slab.{sizeof_block, SlabPool}
use record_lib.Slab.Inv.{Held, pools_of, cells_of, has_addr, AllPools, AllPools-frame}
use record_lib.Slab.Take.{take_block-Taken}
use record_lib.Slab.Alloc.{
  has_free, Takes, Takes-has, Takes-has_addr, Found, Taken-Found, Found-behind, full, not_full,
}
use record_lib.LevelPool.Inv.{
  HeldLevels, level_cells, level_addr, AllLevels, AllLevels-frame, Matches,
}
use record_lib.LevelPool.{
  Level, LevelPool, mp_alloc, alloc_level, level_alloc, level_of, first_mbsize,
}

mp_alloc-Found :
    (fuel : ℕ) (memory : Option ℕ) (poolsize mbsize : ℕ) {h : Heap Ptr} (hs : List Held)
    → AllPools h hs
    → has_free hs ≡ true
    → Returns
        (λ out. Found hs h (some out.0, out.1, out.2))
        (mp_alloc fuel memory poolsize mbsize (pools_of hs) h)
unfolding mp_alloc
mp_alloc-Found fuel m ps mb [] all some_free = absurd (ground arith)
mp_alloc-Found fuel m ps mb ((p, [], used) ∷ []) all some_free = absurd (ground arith)
mp_alloc-Found fuel m ps mb ((p, [], used) ∷ h₂ ∷ hs) all some_free = rw (full all.0) (
    bind (mp_alloc-Found fuel m ps mb (h₂ ∷ hs) all.3 some_free)
      λ out f. returns (Found-behind p used (h₂ ∷ hs) all (some out.0, out.1, out.2) f))
mp_alloc-Found fuel m ps mb ((p, (b, v) ∷ free, used) ∷ []) all some_free = rw (not_full all.0) (
    bind (take_block-Taken b v free used all.0)
      λ out t. returns (Taken-Found b v free used [] all out t))
mp_alloc-Found fuel m ps mb ((p, (b, v) ∷ free, used) ∷ h₂ ∷ hs) all some_free =
    rw (not_full all.0) (
      bind (take_block-Taken b v free used all.0)
        λ out t. returns (Taken-Found b v free used (h₂ ∷ hs) all out t))

-- The wanted level is there and has a free block.
abbrev pub free_at : ℕ → HeldLevels → Bool
free_at i [] = false
free_at zero (hs ∷ hss) = has_free hs
free_at (suc i) (hs ∷ hss) = free_at i hss

-- A block is taken on one level, and the others keep theirs.
pub data TakesAt : ℕ → HeldLevels → Ptr → HeldLevels → Type 0 where
  this :
      {hs ks : List Held} {hss : HeldLevels} {b : Ptr}
      → Takes hs b ks
      → TakesAt zero (hs ∷ hss) b (ks ∷ hss)
  above :
      {i : ℕ} {hs : List Held} {hss kss : HeldLevels} {b : Ptr}
      → TakesAt i hss b kss
      → TakesAt (suc i) (hs ∷ hss) b (hs ∷ kss)

TakesAt-has :
    {i : ℕ} {hss kss : HeldLevels} {b : Ptr} (a : Ptr)
    → TakesAt i hss b kss
    → has a (level_cells kss) ≡ has a (level_cells hss)
TakesAt-has a (this {hs} {ks} {hss} t) =
    has-append a (cells_of ks) (level_cells hss)
    ∙ ap (λ x. x || has a (level_cells hss)) (Takes-has a t)
    ∙ sym (has-append a (cells_of hs) (level_cells hss))
TakesAt-has a (above {hs} {hss} {kss} t) =
    has-append a (cells_of hs) (level_cells kss)
    ∙ ap (λ x. has a (cells_of hs) || x) (TakesAt-has a t)
    ∙ sym (has-append a (cells_of hs) (level_cells hss))

TakesAt-level_addr :
    {i : ℕ} {hss kss : HeldLevels} {b : Ptr} (m : Ptr)
    → TakesAt i hss b kss
    → level_addr m kss ≡ level_addr m hss
TakesAt-level_addr m (this {hss} t) = ap (λ x. x || level_addr m hss) (Takes-has_addr m t)
TakesAt-level_addr m (above {hs} t) = ap (λ x. has_addr m hs || x) (TakesAt-level_addr m t)

-- What an allocation on a level leaves.
pub record AllocatedAt (i : ℕ) (hss : HeldLevels) (h : Heap Ptr)
    (out : Option Ptr × List Level × Heap Ptr) : Type 0 where
  pub block : Ptr
  pub left : HeldLevels
  pub answer : out.0 ≡ some (block + sizeof_block)
  pub takes : TakesAt i hss block left
  pub pools : Matches out.1 left
  pub all : AllLevels out.2 left
  pub same : SameOutside (level_cells hss) h out.2

Found-AllocatedAt :
    {h : Heap Ptr} (l : Level) (ls : List Level) (hs : List Held) (hss : HeldLevels)
    → Matches ls hss
    → AllLevels h (hs ∷ hss)
    → (out : Ptr × List SlabPool × Heap Ptr) → Found hs h (some out.0, out.1, out.2)
    → AllocatedAt zero
        (hs ∷ hss)
        h
        (some (out.0 + sizeof_block), record l { pools = out.1 } ∷ ls, out.2)
Found-AllocatedAt l ls hs hss match (here, away, unlike, all) (b, ps, g) f = record {
  block = f.block;
  left = f.left ∷ hss;
  answer = ap (λ o. Option.map (λ x. x + sizeof_block) o) f.found;
  takes = this f.takes;
  pools = (f.pools, match);
  all = (
    f.all,
    λ a i. away a (sym (Takes-has a f.takes) ∙ i),
    λ m i. unlike m (sym (Takes-has_addr m f.takes) ∙ i),
    AllLevels-frame (cells_of hs) hss f.same (Apart-sym (cells_of hs) (level_cells hss) away) all,
  );
  same = λ a o. f.same a (not-has-append a (cells_of hs) (level_cells hss) o).0;
}

AllocatedAt-above :
    {i : ℕ} {h : Heap Ptr} (l : Level) (hs : List Held) (hss : HeldLevels)
    → l.pools ≡ pools_of hs
    → AllLevels h (hs ∷ hss)
    → (out : Option Ptr × List Level × Heap Ptr) → AllocatedAt i hss h out
    → AllocatedAt (suc i) (hs ∷ hss) h (out.0, l ∷ out.1, out.2)
AllocatedAt-above l hs hss match (here, away, unlike, all) out f = record {
  block = f.block;
  left = hs ∷ f.left;
  answer = f.answer;
  takes = above f.takes;
  pools = (match, f.pools);
  all = (
    AllPools-frame (level_cells hss) hs f.same away here,
    λ a i. TakesAt-has a f.takes ∙ away a i,
    λ m i. TakesAt-level_addr m f.takes ∙ unlike m i,
    f.all,
  );
  same = λ a o. f.same a (not-has-append a (cells_of hs) (level_cells hss) o).1;
}

alloc_level-AllocatedAt :
    (fuel : ℕ) (memory : Option ℕ) (i : ℕ) {h : Heap Ptr} (ls : List Level) (hss : HeldLevels)
    → Matches ls hss
    → AllLevels h hss
    → free_at i hss ≡ true
    → Returns (AllocatedAt i hss h) (alloc_level fuel memory i ls h)
unfolding alloc_level
alloc_level-AllocatedAt fuel m zero [] [] match all some_free = cc
alloc_level-AllocatedAt fuel m zero [] (hs ∷ hss) match all some_free = absurd match
alloc_level-AllocatedAt fuel m zero (l ∷ ls) [] match all some_free = absurd match
alloc_level-AllocatedAt fuel m (suc i) [] [] match all some_free = cc
alloc_level-AllocatedAt fuel m (suc i) [] (hs ∷ hss) match all some_free = absurd match
alloc_level-AllocatedAt fuel m (suc i) (l ∷ ls) [] match all some_free = absurd match
alloc_level-AllocatedAt fuel m zero (l ∷ ls) (hs ∷ hss) (e, match) all some_free = rw e (
    bind (mp_alloc-Found fuel m l.poolsize l.mbsize hs all.0 some_free)
      λ out f. returns (Found-AllocatedAt l ls hs hss match all out f))
alloc_level-AllocatedAt fuel m (suc i) (l ∷ ls) (hs ∷ hss) (e, match) all some_free =
    bind (alloc_level-AllocatedAt fuel m i ls hss match all.3 some_free)
      λ out f. returns (AllocatedAt-above l hs hss e all out f)

-- On pools of several levels whose lists are linked both ways and disjoint, when the level that
-- Alloc chooses for the length is there and has a free block: Alloc raises no fault and answers
-- the data address of the first free block of the first pool of that level that has one; the block
-- heads the used list of its pool, all levels keep their lists linked and disjoint, and memory
-- outside the blocks is unchanged.
pub level_alloc-AllocatedAt :
    (fuel : ℕ) (memory : Option ℕ) (l : ℕ) (s : LevelPool) (hss : HeldLevels)
    → Matches s.levels hss
    → AllLevels s.heap hss
    → free_at (level_of (first_mbsize s.levels) l) hss ≡ true
    → Returns
        (λ out.
          AllocatedAt
            (level_of (first_mbsize s.levels) l)
            hss
            s.heap
            (out.0, out.1.levels, out.1.heap))
        (level_alloc fuel memory l s)
unfolding level_alloc
level_alloc-AllocatedAt fuel memory l s hss match all some_free =
    bind
      (alloc_level-AllocatedAt fuel memory (level_of (first_mbsize s.levels) l) s.levels hss match
        all some_free)
      λ out f. returns f
