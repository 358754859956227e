-- ===== src/RbTree.antt =====
-- The red-black tree of src/datas/pure_rbtree.cpp, on a memory of nodes with parent pointers. The
-- halves of the source that are mirror images of each other are one definition with a side.
pub mod Search
pub mod Insert
pub mod Delete
pub mod Shape
pub mod Found
pub mod Lift
pub mod Rotate
pub mod Context
pub mod Places
pub mod Turn
mod Tests
use record_lib.Base.{ℕ, Bool, Option, none, some, ◌==◌, if◌then◌else◌, ◌>>=◌}
use record_lib.Links.{Ptr}

-- `rb_node`; `val` is `data`.
pub record RbNode : Type 0 where
  pub parent : Ptr
  pub lson : Ptr
  pub rson : Ptr
  pub colour : ℕ
  pub key : ℕ
  pub val : ℕ

abbrev pub Memory : Type 0
Memory = Ptr → Option RbNode

-- `pure_rbtree`: the sentinel stands for every missing son and for the parent of the root.
pub record RbTree : Type 0 where
  pub mem : Memory
  pub nil : Ptr
  pub root : Ptr

abbrev pub black : ℕ
black = 0

abbrev pub red : ℕ
red = 1

pub data Side : Type 0 where
  left right : Side

abbrev pub other : Side → Side
other left = right
other right = left

abbrev pub son : Side → RbNode → Ptr
son left n = n.lson
son right n = n.rson

abbrev pub with_son : Side → Ptr → RbNode → RbNode
with_son left q n = record n { lson = q }
with_son right q n = record n { rson = q }

abbrev pub with_parent : Ptr → RbNode → RbNode
with_parent q n = record n { parent = q }

abbrev with_colour : ℕ → RbNode → RbNode
with_colour c n = record n { colour = c }

unfoldable pub put : Ptr → RbNode → Memory → Memory
put p n mem a = if a == p then some n else mem a

-- A read through a pointer to no node faults.
abbrev pub load : Ptr → RbTree → Option RbNode
load p t = t.mem p

abbrev pub update : Ptr → (RbNode → RbNode) → RbTree → Option RbTree
update p f t = do n ← load p t; some (record t { mem = put p (f n) t.mem })

-- `p->parent = q`, `p->lson = q` or `p->rson = q`, and `p->colour = c`
abbrev pub set_parent : Ptr → Ptr → RbTree → Option RbTree
set_parent p q = update p (with_parent q)

abbrev pub set_son : Side → Ptr → Ptr → RbTree → Option RbTree
set_son s p q = update p (with_son s q)

abbrev pub set_colour : Ptr → ℕ → RbTree → Option RbTree
set_colour p c = update p (with_colour c)

abbrev pub parent_of : Ptr → RbTree → Option Ptr
parent_of p t = do n ← load p t; some n.parent

abbrev pub son_of : Side → Ptr → RbTree → Option Ptr
son_of s p t = do n ← load p t; some (son s n)

abbrev pub colour_of : Ptr → RbTree → Option ℕ
colour_of p t = do n ← load p t; some n.colour

abbrev pub key_of : Ptr → RbTree → Option ℕ
key_of p t = do n ← load p t; some n.key

-- The constructor, for the address of the sentinel.
abbrev pub empty_tree : Ptr → RbTree
empty_tree nil = record {
  mem = λ a.
      if a == nil
      then some (record { parent = nil; lson = nil; rson = nil; colour = black; key = 0; val = 0 })
      else none;
  nil = nil;
  root = nil;
}

-- In the place of a node `u` under the parent `p` comes the node `v`.
unfoldable pub replace : (u p v : Ptr) → RbTree → Option RbTree
replace u p v t =
    let under_parent = (do l ← son_of left p t; set_son (if u == l then left else right) p v t) in
    if p == t.nil then some (record t { root = v }) else under_parent

-- `if (y->lson != nil) y->lson->parent = x`, on a side.
pub relink : Side → (x y : Ptr) → RbTree → Option RbTree
relink s x y t = do
  b ← son_of s y t
  let back = (do b ← son_of s y t; set_parent b x t)
  if b == t.nil then some t else back

-- The second half of a rotation: the node `y` takes the place of `x`, which becomes its son.
pub lift_son : Side → (x y : Ptr) → RbTree → Option RbTree
unfolding replace
lift_son s x y t = do
  p ← parent_of x t
  t ← set_parent y p t
  p ← parent_of x t
  t ← replace x p y t
  t ← set_son s y x t
  set_parent x y t

-- `left_rotate` and `right_rotate`: the node goes down to the side, and its other son comes up.
unfoldable pub rotate : Side → Ptr → RbTree → Option RbTree
unfolding relink lift_son
rotate s x t = do
  y ← son_of (other s) x t
  b ← son_of s y t
  t ← set_son (other s) x b t
  t ← relink s x y t
  lift_son s x y t
