-- ===== src/RbTree/Insert.antt =====
-- The insertion into the tree of src/datas/pure_rbtree.cpp. The loops are on fuel.
use record_lib.Base.{ℕ, zero, suc, Option, none, some, ◌==◌, ltb, if◌then◌else◌, ◌>>=◌}
use record_lib.Links.{Ptr}
use record_lib.RbTree.{
  RbTree, RbNode, Side, left, right, other, black, red, put, set_parent, set_son, set_colour,
  parent_of, son_of, colour_of, key_of, rotate,
}

-- The `while` of `rb_insert`: the node that becomes the parent.
descend : ℕ → (key : ℕ) (x y : Ptr) → RbTree → Option Ptr
descend zero key x y t = none
descend (suc k) key x y t =
    let next = (do
      kx ← key_of x t
      x' ← son_of (if ltb key kx then left else right) x t
      descend k key x' x t) in
    if x == t.nil then some y else next

-- A red uncle: both go black, and the grandparent is next.
recolour : (z y : Ptr) → RbTree → Option (Ptr × RbTree)
recolour z y t = do
  p ← parent_of z t
  t ← set_colour p black t
  t ← set_colour y black t
  p ← parent_of z t
  g ← parent_of p t
  t ← set_colour g red t
  some (g, t)

-- A black uncle: one or two rotations.
straighten : Side → (z : Ptr) → RbTree → Option (Ptr × RbTree)
straighten s z t = do
  p ← parent_of z t
  inner ← son_of (other s) p t
  (z, t) ← if z == inner then (do t ← rotate s p t; some (p, t)) else some (z, t)
  p ← parent_of z t
  t ← set_colour p black t
  p ← parent_of z t
  g ← parent_of p t
  t ← set_colour g red t
  p ← parent_of z t
  g ← parent_of p t
  t ← rotate (other s) g t
  some (z, t)

-- A round of `rb_insert_fixup`, whose parent of `z` is the son of its parent on the side.
insert_step : Side → (z : Ptr) → RbTree → Option (Ptr × RbTree)
unfolding recolour straighten
insert_step s z t = do
  p ← parent_of z t
  g ← parent_of p t
  y ← son_of (other s) g t
  c ← colour_of y t
  if c == red then recolour z y t else straighten s z t

insert_fixup : ℕ → (z : Ptr) → RbTree → Option RbTree
unfolding insert_step
insert_fixup zero z t = none
insert_fixup (suc k) z t = do
  p ← parent_of z t
  c ← colour_of p t
  let next = (do
    g ← parent_of p t
    l ← son_of left g t
    (z, t) ← insert_step (if p == l then left else right) z t
    insert_fixup k z t)
  if c == red then next else set_colour t.root black t

-- The node `z` is in memory, with its key.
unfoldable pub rb_insert : ℕ → (z : Ptr) → RbTree → Option RbTree
unfolding descend insert_fixup
rb_insert fuel z t = do
  key ← key_of z t
  y ← descend fuel key t.root t.nil t
  t ← set_parent z y t
  let under = (do ky ← key_of y t; set_son (if ltb key ky then left else right) y z t)
  t ← if y == t.nil then some (record t { root = z }) else under
  t ← set_son left z t.nil t
  t ← set_son right z t.nil t
  t ← set_colour z red t
  insert_fixup fuel z t

-- The inner `none` is the result -1, when there is no memory for the node.
unfoldable pub rb_insert_key_data :
    ℕ → (fresh : Option Ptr) → (key val : ℕ) → RbTree → Option (Option RbTree)
unfolding rb_insert
rb_insert_key_data fuel none key val t = some none
rb_insert_key_data fuel (some z) key val t = do
  let n : RbNode = record { parent = 0; lson = 0; rson = 0; colour = 0; key = key; val = val }
  t ← rb_insert fuel z (record t { mem = put z n t.mem })
  some (some t)
