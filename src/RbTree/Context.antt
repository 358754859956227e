-- ===== src/RbTree/Context.antt =====
-- A tree in its place: the nodes above it, in the memory of src/datas/pure_rbtree.cpp.
use record_lib.Base.{
  ℕ, ◌≡◌, ◌==◌, ◌||◌, Bool, true, false, refl, sym, ap, ◌∙◌, some, arith, inl, inr, Bool-cases,
  eq_refl, ◌⊎◌,
}
use record_lib.Links.{Ptr}
use record_lib.RbTree.{Memory, Side, left, right}
use record_lib.RbTree.Shape.{Tree, leaf, branch, root_of, IsTree}
use record_lib.RbTree.Lift.{rb_on}

-- A node with its sons on a side and on the other one.
abbrev pub join : Side → (a : Ptr) → (c k v : ℕ) → (near far : Tree) → Tree
join left a c k v near far = branch a c k v near far
join right a c k v near far = branch a c k v far near

-- The way up from a place: it is the son of a node on a side.
pub data Context : Type 0 where
  top : Context
  inside : Side → (a : Ptr) → (c k v : ℕ) → (sibling : Tree) → (up : Context) → Context

abbrev pub parent_at : Ptr → Context → Ptr
parent_at nil top = nil
parent_at nil (inside s a c k v sibling up) = a

abbrev pub IsContext : Memory → (nil root child : Ptr) → Context → Type 0
IsContext mem nil root child top = root ≡ child
IsContext mem nil root child (inside s a c k v sibling up) =
    ((a == nil) ≡ false)
    × (mem a ≡ some (rb_on s (parent_at nil up) child (root_of nil sibling) c k v))
    × IsTree mem nil a sibling
    × IsContext mem nil root a up

abbrev pub member : Ptr → Tree → Bool
member a leaf = false
member a (branch b c k v l r) = (a == b) || (member a l || member a r)

abbrev pub member_above : Ptr → Context → Bool
member_above a top = false
member_above a (inside s b c k v sibling up) = (a == b) || (member a sibling || member_above a up)

-- No address stands twice.
abbrev pub Spread : Tree → Type 0
Spread leaf = Unit
Spread (branch a c k v l r) =
    (member a l ≡ false)
    × (member a r ≡ false)
    × ((b : Ptr) → member b l ≡ true → member b r ≡ false)
    × Spread l
    × Spread r

abbrev pub SpreadAbove : Context → Type 0
SpreadAbove top = Unit
SpreadAbove (inside s a c k v sibling up) =
    (member a sibling ≡ false)
    × (member_above a up ≡ false)
    × ((b : Ptr) → member b sibling ≡ true → member_above b up ≡ false)
    × SpreadAbove up

pub member-join :
    (s : Side) (a b : Ptr) (c k v : ℕ) (near far : Tree)
    → member a (join s b c k v near far) ≡ ((a == b) || (member a near || member a far))
member-join left a b c k v near far = refl
member-join right a b c k v near far = swap (a == b) (member a far) (member a near)
  where
    swap : (x y z : Bool) → (x || (y || z)) ≡ (x || (z || y))
    swap x y z = ground arith

pub join-IsTree :
    (s : Side) (mem : Memory) (nil p a : Ptr) (c k v : ℕ) (near far : Tree)
    → (a == nil) ≡ false
    → mem a ≡ some (rb_on s p (root_of nil near) (root_of nil far) c k v)
    → IsTree mem nil a near
    → IsTree mem nil a far
    → IsTree mem nil p (join s a c k v near far)
join-IsTree left mem nil p a c k v near far live at i j = (live, at, i, j)
join-IsTree right mem nil p a c k v near far live at i j = (live, at, j, i)

pub IsTree-join :
    (s : Side) (mem : Memory) (nil p a : Ptr) (c k v : ℕ) (near far : Tree)
    → IsTree mem nil p (join s a c k v near far)
    → ((a == nil) ≡ false)
      × (mem a ≡ some (rb_on s p (root_of nil near) (root_of nil far) c k v))
      × IsTree mem nil a near
      × IsTree mem nil a far
IsTree-join left mem nil p a c k v near far is = is
IsTree-join right mem nil p a c k v near far (live, at, i, j) = (live, at, j, i)

pub Spread-join :
    (s : Side) (a : Ptr) (c k v : ℕ) (near far : Tree)
    → Spread (join s a c k v near far)
    → (member a near ≡ false)
      × (member a far ≡ false)
      × ((b : Ptr) → member b near ≡ true → member b far ≡ false)
      × Spread near
      × Spread far
Spread-join left a c k v near far sp = sp
Spread-join right a c k v near far (m, n, apart, sp, sq) =
    (n, m, λ b i. flip b i (Bool-cases (member b far)), sq, sp)
  where
    flip :
        (b : Ptr)
        → member b near ≡ true
        → (member b far ≡ true) ⊎ (member b far ≡ false)
        → member b far ≡ false
    flip b i (inl j) = let h = apart b j in cc
    flip b i (inr j) = j

pub member-other :
    (a b : Ptr) (t : Tree) → member a t ≡ true → member b t ≡ false → (a == b) ≡ false
member-other a b t i o = elim (Bool-cases (a == b)) [
  | inl e ↦ let same : a ≡ b = ground arith in let i' = sym (ap (λ x. member x t) same) ∙ i in cc
  | inr e ↦ e
]

pub IsTree-frame :
    (mem mem' : Memory) (nil p : Ptr) (t : Tree)
    → ((a : Ptr) → member a t ≡ true → mem' a ≡ mem a)
    → IsTree mem nil p t
    → IsTree mem' nil p t
IsTree-frame mem mem' nil p leaf same is = tt
IsTree-frame mem mem' nil p (branch a c k v l r) same (live, at, il, ir) = (
  live,
  (let here : member a (branch a c k v l r) ≡ true = ground (arith, eq_refl a) in same a here ∙ at),
  IsTree-frame mem mem' nil a l (λ b i. same b (ground arith)) il,
  IsTree-frame mem mem' nil a r (λ b i. same b (ground arith)) ir,
)

pub IsContext-frame :
    (mem mem' : Memory) (nil root child : Ptr) (up : Context)
    → ((a : Ptr) → member_above a up ≡ true → mem' a ≡ mem a)
    → IsContext mem nil root child up
    → IsContext mem' nil root child up
IsContext-frame mem mem' nil root child top same is = is
IsContext-frame mem mem' nil root child (inside s a c k v sibling up) same (live, at, it, iu) = (
  live,
  (let here : member_above a (inside s a c k v sibling up) ≡ true = ground (arith, eq_refl a) in
      same a here ∙ at),
  IsTree-frame mem mem' nil a sibling (λ b i. same b (ground arith)) it,
  IsContext-frame mem mem' nil root a up (λ b i. same b (ground arith)) iu,
)
