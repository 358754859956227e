-- ===== src/RbTree/Delete.antt =====
-- The deletion from the tree of src/datas/pure_rbtree.cpp. The loops are on fuel.
use record_lib.Base.{ℕ, zero, suc, Bool, false, Option, none, some, ◌==◌, if◌then◌else◌, ◌>>=◌}
use record_lib.Links.{Ptr}
use record_lib.RbTree.{
  RbTree, Side, left, right, other, black, red, load, set_parent, set_son, set_colour, parent_of,
  son_of, colour_of, replace, rotate,
}
use record_lib.RbTree.Search.{tree_minimum, rb_search}

rb_transplant : (u v : Ptr) → RbTree → Option RbTree
rb_transplant u v t = do p ← parent_of u t; t ← replace u p v t; p ← parent_of u t; set_parent v p t

-- Both sons of a node are black; the right one is read only if the left one is.
black_sons : Ptr → RbTree → Option Bool
black_sons w t = do
  l ← son_of left w t
  cl ← colour_of l t
  let second = (do r ← son_of right w t; cr ← colour_of r t; some (cr == black))
  if cl == black then second else some false

-- A red brother goes up; the result has the black one.
red_brother : Side → (x w : Ptr) → RbTree → Option (Ptr × RbTree)
red_brother s x w t = do
  t ← set_colour w black t
  p ← parent_of x t
  t ← set_colour p red t
  p ← parent_of x t
  t ← rotate s p t
  p ← parent_of x t
  w ← son_of (other s) p t
  some (w, t)

-- A brother whose far son is black gets a red one.
turn_brother : Side → (x w : Ptr) → RbTree → Option (Ptr × RbTree)
turn_brother s x w t = do
  near ← son_of s w t
  t ← set_colour near black t
  t ← set_colour w red t
  t ← rotate (other s) w t
  p ← parent_of x t
  w ← son_of (other s) p t
  some (w, t)

-- The brother with a red far son takes the parent's place.
raise_brother : Side → (x w : Ptr) → RbTree → Option (Ptr × RbTree)
raise_brother s x w t = do
  p ← parent_of x t
  c ← colour_of p t
  t ← set_colour w c t
  p ← parent_of x t
  t ← set_colour p black t
  far ← son_of (other s) w t
  t ← set_colour far black t
  p ← parent_of x t
  t ← rotate s p t
  some (t.root, t)

lower_brother : (x w : Ptr) → RbTree → Option (Ptr × RbTree)
lower_brother x w t = do t ← set_colour w red t; p ← parent_of x t; some (p, t)

-- A round of `rb_delete_fixup`, whose node `x` is the son of its parent on the side.
delete_step : Side → (x : Ptr) → RbTree → Option (Ptr × RbTree)
unfolding black_sons red_brother turn_brother raise_brother lower_brother
delete_step s x t = do
  p ← parent_of x t
  w ← son_of (other s) p t
  c ← colour_of w t
  (w, t) ← if c == red then red_brother s x w t else some (w, t)
  both ← black_sons w t
  let one = (do
    far ← son_of (other s) w t
    c ← colour_of far t
    (w, t) ← if c == black then turn_brother s x w t else some (w, t)
    raise_brother s x w t)
  if both then lower_brother x w t else one

delete_fixup : ℕ → (x : Ptr) → RbTree → Option RbTree
unfolding delete_step
delete_fixup zero x t = none
delete_fixup (suc k) x t = do
  c ← colour_of x t
  let next = (do
    p ← parent_of x t
    l ← son_of left p t
    (x, t) ← delete_step (if x == l then left else right) x t
    delete_fixup k x t)
  let rest = if c == black then next else set_colour x black t
  if x == t.root then set_colour x black t else rest

-- A node with two sons: its successor `y` takes its place. The result has the node `x` that moved up
-- and the colour that left its place.
delete_inner : ℕ → (z r : Ptr) → RbTree → Option (Ptr × ℕ × RbTree)
unfolding rb_transplant
delete_inner fuel z r t = do
  y ← tree_minimum fuel r t
  c ← colour_of y t
  x ← son_of right y t
  p ← parent_of y t
  let moved = (do
    t ← rb_transplant y x t
    r ← son_of right z t
    t ← set_son right y r t
    r ← son_of right y t
    set_parent r y t)
  t ← if p == z then set_parent x y t else moved
  t ← rb_transplant z y t
  l ← son_of left z t
  t ← set_son left y l t
  l ← son_of left y t
  t ← set_parent l y t
  cz ← colour_of z t
  t ← set_colour y cz t
  some (x, c, t)

unfoldable pub rb_delete : ℕ → (z : Ptr) → RbTree → Option RbTree
unfolding delete_inner delete_fixup
rb_delete fuel z t = do
  c ← colour_of z t
  l ← son_of left z t
  r ← son_of right z t
  let inner = delete_inner fuel z r t
  let upper = (do t ← rb_transplant z l t; some (l, c, t))
  let lower = (do t ← rb_transplant z r t; some (r, c, t))
  (x, c, t) ← if l == t.nil then lower else if r == t.nil then upper else inner
  if c == black then delete_fixup fuel x t else some t

-- `delete` of a node.
abbrev free_node : Ptr → RbTree → RbTree
free_node z t = record t { mem = λ a. if a == z then none else t.mem a }

-- The inner `none` is the result -1; else the value that was stored comes with the tree.
unfoldable pub rb_delete_key : ℕ → (key : ℕ) → RbTree → Option (Option ℕ × RbTree)
unfolding rb_delete
rb_delete_key fuel key t = do
  z ← rb_search fuel key t
  let found = (do n ← load z t; t ← rb_delete fuel z t; some (some n.val, free_node z t))
  if z == t.nil then some (none, t) else found

-- A leaf is cut off from its parent and freed.
cut_leaf : (x : Ptr) → RbTree → Option RbTree
cut_leaf x t = do
  p ← parent_of x t
  l ← son_of left p t
  t ← set_son (if x == l then left else right) p t.nil t
  some (free_node x t)

-- The `while` of `rb_destroy`.
destroy_loop : ℕ → (x : Ptr) → RbTree → Option RbTree
unfolding cut_leaf
destroy_loop zero x t = none
destroy_loop (suc k) x t =
    let round = (do
      y ← parent_of x t
      l ← son_of left x t
      r ← son_of right x t
      let down_left = destroy_loop k l t
      let down_right = destroy_loop k r t
      let cut = (do t ← cut_leaf x t; destroy_loop k y t)
      if l == t.nil then (if r == t.nil then cut else down_right) else down_left) in
    if x == t.nil then some t else round

unfoldable pub rb_destroy : ℕ → RbTree → Option RbTree
unfolding destroy_loop
rb_destroy fuel t = destroy_loop fuel t.root t
