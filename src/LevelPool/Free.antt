-- ===== src/LevelPool/Free.antt =====
-- `Free` of src/mem_pool/pure_slab_pool.cpp on pools of several levels.
use record_lib.Base.{
  ◌+◌, ◌-◌, ◌||◌, ◌≡◌, ◌∙◌, ◌==◌, refl, sym, ap, true, false, none, List, [], ◌∷◌, arith, Returns,
  returns, bind, returned, inl, inr, Bool-cases,
}
use record_lib.Links.{Ptr, Heap}
use record_lib.Links.Seg.{has, SameOutside, not-has-append, has-append}
use record_lib.Links.Writes.{load-ok}
use record_lib.Links.Back.{Apart-sym}
use record_lib.Slab.{sizeof_block, SlabPool, release_in}
use record_lib.Slab.Inv.{Held, pools_of, cells_of, has_addr, AllPools-frame}
use record_lib.Slab.Free.{
  Gives, Uses, names, Named, Uses-Named, names-known, Returned, Gives-has, Gives-has_addr,
  release_in-Returned,
}
use record_lib.LevelPool.{Level, LevelPool, free_levels, level_free}
use record_lib.LevelPool.Inv.{
  HeldLevels, level_cells, level_addr, AllLevels, AllLevels-frame, Matches,
}

-- A used block of some level, and the move that gives it back.
pub data UsesAt (b : Ptr) : HeldLevels → Type 0 where
  this : {hs : List Held} {hss : HeldLevels} → Uses b hs → UsesAt b (hs ∷ hss)
  above : {hs : List Held} {hss : HeldLevels} → UsesAt b hss → UsesAt b (hs ∷ hss)

pub data GivesAt : HeldLevels → Ptr → HeldLevels → Type 0 where
  this :
      {hs ks : List Held} {hss : HeldLevels} {b : Ptr}
      → Gives hs b ks
      → GivesAt (hs ∷ hss) b (ks ∷ hss)
  above :
      {hs : List Held} {hss kss : HeldLevels} {b : Ptr}
      → GivesAt hss b kss
      → GivesAt (hs ∷ hss) b (hs ∷ kss)

GivesAt-has :
    {hss kss : HeldLevels} {b : Ptr} (a : Ptr)
    → GivesAt hss b kss
    → has a (level_cells kss) ≡ has a (level_cells hss)
GivesAt-has a (this {hs} {ks} {hss} t) =
    has-append a (cells_of ks) (level_cells hss)
    ∙ ap (λ x. x || has a (level_cells hss)) (Gives-has a t)
    ∙ sym (has-append a (cells_of hs) (level_cells hss))
GivesAt-has a (above {hs} {hss} {kss} t) =
    has-append a (cells_of hs) (level_cells kss)
    ∙ ap (λ x. has a (cells_of hs) || x) (GivesAt-has a t)
    ∙ sym (has-append a (cells_of hs) (level_cells hss))

GivesAt-level_addr :
    {hss kss : HeldLevels} {b : Ptr} (m : Ptr)
    → GivesAt hss b kss
    → level_addr m kss ≡ level_addr m hss
GivesAt-level_addr m (this {hss} t) = ap (λ x. x || level_addr m hss) (Gives-has_addr m t)
GivesAt-level_addr m (above {hs} t) = ap (λ x. has_addr m hs || x) (GivesAt-level_addr m t)

-- A level without the pool leaves the block to the next one.
release_in-none :
    (b mp : Ptr) (hs : List Held) (h : Heap Ptr)
    → has_addr mp hs ≡ false
    → release_in b mp (pools_of hs) h ≡ none
unfolding release_in
release_in-none b mp [] h away = refl
release_in-none b mp ((p, free, used) ∷ hs) h away =
    let e : (p.addr == mp) ≡ false = ground arith in
    let e' : has_addr mp hs ≡ false = ground arith in rw (e, release_in-none b mp hs h e') refl

pub record ReturnedAt (b : Ptr) (hss : HeldLevels) (h : Heap Ptr) (out : List Level × Heap Ptr)
    : Type 0 where
  pub left : HeldLevels
  pub gives : GivesAt hss b left
  pub pools : Matches out.0 left
  pub all : AllLevels out.1 left
  pub same : SameOutside (level_cells hss) h out.1

-- The pool that a used block names.
abbrev names_at : {b : Ptr} {hss : HeldLevels} → UsesAt b hss → Ptr
names_at (this u) = names u
names_at (above u) = names_at u

names_at-known :
    (h : Heap Ptr) {b : Ptr} {hss : HeldLevels} (u : UsesAt b hss)
    → AllLevels h hss
    → level_addr (names_at u) hss ≡ true
names_at-known h (this u) all = let k = names-known h u all.0 in ground arith
names_at-known h (above u) all = let k = names_at-known h u all.3 in ground arith

names_at-Named :
    {h : Heap Ptr} {b : Ptr} {hss : HeldLevels} (u : UsesAt b hss)
    → AllLevels h hss
    → Named b (names_at u) h
names_at-Named (this u) all = Uses-Named u all.0
names_at-Named (above u) all = names_at-Named u all.3

Returned-ReturnedAt :
    {h : Heap Ptr} {b : Ptr} (l : Level) (ls : List Level) (hs : List Held) (hss : HeldLevels)
    → Matches ls hss
    → AllLevels h (hs ∷ hss)
    → (out : List SlabPool × Heap Ptr) → Returned b hs h out
    → ReturnedAt b (hs ∷ hss) h (record l { pools = out.0 } ∷ ls, out.1)
Returned-ReturnedAt l ls hs hss match (here, away, unlike, all) out f = record {
  left = f.left ∷ hss;
  gives = this f.gives;
  pools = (f.pools, match);
  all = (
    f.all,
    λ a i. away a (sym (Gives-has a f.gives) ∙ i),
    λ m i. unlike m (sym (Gives-has_addr m f.gives) ∙ i),
    AllLevels-frame (cells_of hs) hss f.same (Apart-sym (cells_of hs) (level_cells hss) away) all,
  );
  same = λ a o. f.same a (not-has-append a (cells_of hs) (level_cells hss) o).0;
}

ReturnedAt-above :
    {h : Heap Ptr} {b : Ptr} (l : Level) (hs : List Held) (hss : HeldLevels)
    → l.pools ≡ pools_of hs
    → AllLevels h (hs ∷ hss)
    → (out : List Level × Heap Ptr) → ReturnedAt b hss h out
    → ReturnedAt b (hs ∷ hss) h (l ∷ out.0, out.1)
ReturnedAt-above l hs hss match (here, away, unlike, all) out f = record {
  left = hs ∷ f.left;
  gives = above f.gives;
  pools = (match, f.pools);
  all = (
    AllPools-frame (level_cells hss) hs f.same away here,
    λ a i. GivesAt-has a f.gives ∙ away a i,
    λ m i. GivesAt-level_addr m f.gives ∙ unlike m i,
    f.all,
  );
  same = λ a o. f.same a (not-has-append a (cells_of hs) (level_cells hss) o).1;
}

free_levels-ReturnedAt :
    {h : Heap Ptr} {b : Ptr} (ls : List Level) {hss : HeldLevels} (u : UsesAt b hss)
    → Matches ls hss
    → AllLevels h hss
    → Returns (ReturnedAt b hss h) (free_levels b (names_at u) ls h)
unfolding free_levels
free_levels-ReturnedAt [] (this u) match all = absurd match
free_levels-ReturnedAt [] (above u) match all = absurd match
free_levels-ReturnedAt {h} {b} (l ∷ ls) (this {hs} {hss} u) (e, match) all =
    let (out, eq, r) = returned (release_in-Returned u all.0) in
    rw (e, eq, free_levels) (returns (Returned-ReturnedAt l ls hs hss match all out r))
free_levels-ReturnedAt {h} {b} (l ∷ ls) (above {hs} {hss} u) (e, match) all =
    let away : has_addr (names_at u) hs ≡ false = elim (Bool-cases (has_addr (names_at u) hs)) [
      | inl i ↦ let k = names_at-known h u all.3 in let k' = all.2 (names_at u) i in cc
      | inr i ↦ i
    ] in
    rw (e, release_in-none b (names_at u) hs h away, free_levels)
      (bind (free_levels-ReturnedAt ls u match all.3)
        λ out r. returns (ReturnedAt-above l hs hss e all out r))

-- On pools of several levels whose lists are linked both ways and disjoint, Free of the data
-- address of a used block of any level raises no fault: the block moves from the used list to the
-- front of the free list of the pool that it names, all levels keep their lists linked and
-- disjoint, and memory outside the blocks is unchanged.
pub level_free-ReturnedAt :
    (s : LevelPool) (b : Ptr) (hss : HeldLevels)
    → Matches s.levels hss
    → AllLevels s.heap hss
    → UsesAt b hss
    → Returns (λ t. ReturnedAt b hss s.heap (t.levels, t.heap)) (level_free (b + sizeof_block) s)
unfolding level_free
level_free-ReturnedAt s b hss match all u =
    let n = names_at-Named u all in
    let back : b + sizeof_block - sizeof_block ≡ b = omega arith in
    rw (back, load-ok s.heap b n.live n.content n.at, n.known)
      (bind (free_levels-ReturnedAt s.levels u match all) λ out r. returns r)
