-- ===== src/Slab/Free.antt =====
-- `slab_free` of src/mem_pool/pure_slab.cpp on an allocator with several pools.
use record_lib.Base.{
  suc, ◌+◌, ◌-◌, ◌==◌, ◌||◌, Bool, ◌∙◌, ◌≡◌, ◌≢◌, refl, sym, ap, List, ◌∷◌, ◌++◌, false, true, some,
  length-append, arith, Returns, returns, bind, inl, inr, Bool-cases, eq_refl,
}
use record_lib.Links.{Ptr, null, node, Node, Heap}
use record_lib.Links.Seg.{
  Cells, has, first, last, SameOutside, not-has-append, has-append, Seg-back,
}
use record_lib.Links.Writes.{load-ok}
use record_lib.Links.Back.{Apart-sym, has-left, has-right}
use record_lib.Slab.{SlabPool, Slab, release_in, slab_free}
use record_lib.Slab.Inv.{
  IsPool, Held, pools_of, cells_of, used_count, has_addr, AllPools, AllPools-frame, IsPool-frame,
  IsSlab,
}
use record_lib.Slab.Release.{Released, Owned-append, release_block-Released}

-- A used block becomes the first free one of its pool.
pub data Gives : List Held → Ptr → List Held → Type 0 where
  here :
      {p q : SlabPool} {free : Cells Ptr} {hs : List Held} (xs ys : Cells Ptr) (b v : Ptr)
      → q.addr ≡ p.addr
      → Gives ((p, free, xs ++ (b, v) ∷ ys) ∷ hs) b ((q, (b, v) ∷ free, xs ++ ys) ∷ hs)
  there :
      {p : SlabPool} {free used : Cells Ptr} {hs ks : List Held} {b : Ptr}
      → Gives hs b ks
      → Gives ((p, free, used) ∷ hs) b ((p, free, used) ∷ ks)

-- A block that is in use.
pub data Uses (b : Ptr) : List Held → Type 0 where
  here :
      {p : SlabPool} {free : Cells Ptr} {hs : List Held} (xs ys : Cells Ptr) (v : Ptr)
      → Uses b ((p, free, xs ++ (b, v) ∷ ys) ∷ hs)
  there :
      {p : SlabPool} {free used : Cells Ptr} {hs : List Held}
      → Uses b hs
      → Uses b ((p, free, used) ∷ hs)

has-moved :
    (a b v : Ptr) (free xs ys : Cells Ptr)
    → has a ((b, v) ∷ free ++ (xs ++ ys)) ≡ has a (free ++ (xs ++ (b, v) ∷ ys))
has-moved a b v free xs ys =
    ap (λ x. (a == b) || x)
      (has-append a free (xs ++ ys) ∙ ap (λ x. has a free || x) (has-append a xs ys))
    ∙ swap (a == b) (has a free) (has a xs) (has a ys)
    ∙ ap (λ x. has a free || x) (sym (has-append a xs ((b, v) ∷ ys)))
    ∙ sym (has-append a free (xs ++ (b, v) ∷ ys))
  where
    swap : (w x y z : Bool) → (w || (x || (y || z))) ≡ (x || (y || (w || z)))
    swap w x y z = ground arith

pub Gives-has :
    {hs ks : List Held} {b : Ptr} (a : Ptr)
    → Gives hs b ks
    → has a (cells_of ks) ≡ has a (cells_of hs)
Gives-has a (here {free} {hs} xs ys b v e) =
    has-append a ((b, v) ∷ free ++ (xs ++ ys)) (cells_of hs)
    ∙ ap (λ x. x || has a (cells_of hs)) (has-moved a b v free xs ys)
    ∙ sym (has-append a (free ++ (xs ++ (b, v) ∷ ys)) (cells_of hs))
Gives-has a (there {free} {used} {hs} {ks} t) =
    has-append a (free ++ used) (cells_of ks)
    ∙ ap (λ x. has a (free ++ used) || x) (Gives-has a t)
    ∙ sym (has-append a (free ++ used) (cells_of hs))

pub Gives-has_addr :
    {hs ks : List Held} {b : Ptr} (m : Ptr) → Gives hs b ks → has_addr m ks ≡ has_addr m hs
Gives-has_addr m (here {hs} xs ys b v e) = ap (λ x. (m == x) || has_addr m hs) e
Gives-has_addr m (there {p} t) = ap (λ x. (m == p.addr) || x) (Gives-has_addr m t)

Gives-used_count :
    {hs ks : List Held} {b : Ptr} → Gives hs b ks → used_count hs ≡ suc (used_count ks)
Gives-used_count (here xs ys b v e) =
    omega (arith, length-append xs ys, length-append xs ((b, v) ∷ ys))
Gives-used_count (there t) = omega (arith, Gives-used_count t)

-- The pool that a used block names.
abbrev pub names : {b : Ptr} {hs : List Held} → Uses b hs → Ptr
names (here xs ys v) = v
names (there u) = names u

pub record Named (b mp : Ptr) (h : Heap Ptr) : Type 0 where
  pub content : Node Ptr
  pub live : b ≢ null
  pub at : h b ≡ some content
  pub known : content.val ≡ mp

pub Uses-Named :
    {h : Heap Ptr} {b : Ptr} {hs : List Held} (u : Uses b hs) → AllPools h hs → Named b (names u) h
Uses-Named {h} {b} (here {p} xs ys v) all =
    let (live, at, rest) = Seg-back h null null xs ((b, v) ∷ ys) all.0.used_chain in
    record { content = node v (last null xs) (first ys null); live = live; at = at; known = refl }
Uses-Named (there u) all = Uses-Named u all.3

pub record Returned (b : Ptr) (hs : List Held) (h : Heap Ptr) (out : List SlabPool × Heap Ptr)
    : Type 0 where
  pub left : List Held
  pub gives : Gives hs b left
  pub pools : out.0 ≡ pools_of left
  pub all : AllPools out.1 left
  pub same : SameOutside (cells_of hs) h out.1

Released-Returned :
    {h : Heap Ptr} {p : SlabPool} (b v : Ptr) (free xs ys : Cells Ptr) (hs : List Held)
    → AllPools h ((p, free, xs ++ (b, v) ∷ ys) ∷ hs)
    → (out : SlabPool × Heap Ptr) → Released b v free (xs ++ ys) p h out
    → Returned b ((p, free, xs ++ (b, v) ∷ ys) ∷ hs) h (out.0 ∷ pools_of hs, out.1)
Released-Returned b v free xs ys hs (is, away, unlike, all) (q, g) r = record {
  left = (q, (b, v) ∷ free, xs ++ ys) ∷ hs;
  gives = here xs ys b v r.addr;
  pools = refl;
  all = (
    r.lists,
    λ a i. away a (sym (has-moved a b v free xs ys) ∙ i),
    ap (λ m. has_addr m hs) r.addr ∙ unlike,
    AllPools-frame ((b, v) ∷ free ++ (xs ++ ys)) hs r.same
        (λ a i.
          has-moved a b v free xs ys
          ∙ Apart-sym (free ++ (xs ++ (b, v) ∷ ys)) (cells_of hs) away a i)
        all,
  );
  same = λ a o. r.same a (
      has-moved a b v free xs ys
      ∙ (not-has-append a (free ++ (xs ++ (b, v) ∷ ys)) (cells_of hs) o).0);
}

Returned-behind :
    {b : Ptr} {h : Heap Ptr} (p : SlabPool) (free used : Cells Ptr) (hs : List Held)
    → AllPools h ((p, free, used) ∷ hs)
    → (out : List SlabPool × Heap Ptr) → Returned b hs h out
    → Returned b ((p, free, used) ∷ hs) h (p ∷ out.0, out.1)
Returned-behind p free used hs (is, away, unlike, all) out f = record {
  left = (p, free, used) ∷ f.left;
  gives = there f.gives;
  pools = ap (λ ps. p ∷ ps) f.pools;
  all = (
    IsPool-frame (cells_of hs) f.same (λ a i. away a (has-left a free used i))
        (λ a i. away a (has-right a free used i)) is,
    λ a i. Gives-has a f.gives ∙ away a i,
    Gives-has_addr p.addr f.gives ∙ unlike,
    f.all,
  );
  same = λ a o. f.same a (not-has-append a (free ++ used) (cells_of hs) o).1;
}

-- A pool that stands behind another one has another address.
other_addr :
    (p : SlabPool) (m : Ptr) (hs : List Held)
    → has_addr p.addr hs ≡ false
    → has_addr m hs ≡ true
    → (p.addr == m) ≡ false
other_addr p m hs unlike known = elim (Bool-cases (p.addr == m)) [
  | inl e ↦
      let e' : p.addr ≡ m = ground arith in
      absurd (ground (arith, ap (λ x. has_addr x hs) (sym e') ∙ unlike))
  | inr e ↦ e
]

owner :
    {h : Heap Ptr} (b : Ptr) {p : SlabPool} {free : Cells Ptr} (xs ys : Cells Ptr) (v : Ptr)
    → IsPool h p free (xs ++ (b, v) ∷ ys)
    → p.addr ≡ v
owner b {p} xs ys v is = sym (Owned-append p.addr xs b v ys is.owned).1

pub names-known :
    (h : Heap Ptr) {b : Ptr} {hs : List Held} (u : Uses b hs)
    → AllPools h hs
    → has_addr (names u) hs ≡ true
names-known h {b} (here {p} xs ys v) all =
    let e : (v == p.addr) ≡ true = let o = owner b xs ys v all.0 in ground (arith, eq_refl v) in
    rw e refl
names-known h (there u) all = let k = names-known h u all.3 in ground arith

pub release_in-Returned :
    {h : Heap Ptr} {b : Ptr} {hs : List Held} (u : Uses b hs)
    → AllPools h hs
    → Returns (Returned b hs h) (release_in b (names u) (pools_of hs) h)
unfolding release_in
release_in-Returned {b} (here {p} {free} {hs} xs ys v) all =
    let e : (p.addr == v) ≡ true = ground (arith, owner b xs ys v all.0, eq_refl p.addr) in
    rw e (
      bind (release_block-Released b v free xs ys all.0)
        λ out r. returns (Released-Returned b v free xs ys hs all out r))
release_in-Returned (there {p} {free} {used} {hs} u) all =
    rw (other_addr p _ hs all.2 (names-known _ u all.3)) (
      bind (release_in-Returned u all.3)
        λ out r. returns (Returned-behind p free used hs all out r))

-- What `slab_free` leaves.
pub record Freed (s : Slab) (hs : List Held) (b : Ptr) (t : Slab) : Type 0 where
  pub left : List Held
  pub gives : Gives hs b left
  pub slab : IsSlab t left
  pub same : SameOutside (cells_of hs) s.heap t.heap

-- On a well-formed allocator, slab_free of the data address of a used block of any pool raises no
-- fault: the block moves from the used list to the front of the free list of its pool, the
-- allocator stays well-formed with its count lowered, and memory outside its blocks is unchanged.
pub slab_free-Freed :
    {s : Slab} {hs : List Held} {b : Ptr}
    → IsSlab s hs
    → Uses b hs
    → Returns (Freed s hs b) (slab_free (b + s.alignedsize) s)
unfolding slab_free
slab_free-Freed {s} {hs} {b} is u =
    let n = Uses-Named u is.all in
    let back : b + s.alignedsize - s.alignedsize ≡ b = omega arith in
    rw (back, load-ok s.heap b n.live n.content n.at, n.known, is.pools)
      (bind (release_in-Returned u is.all) λ out r. returns (record {
        left = r.left;
        gives = r.gives;
        slab = record {
          pools = r.pools;
          all = r.all;
          count = omega (arith, is.count, Gives-used_count r.gives);
        };
        same = r.same;
      }))
