-- ===== src/RbTree/Search.antt =====
-- The reads of the tree of src/datas/pure_rbtree.cpp, and what they find.
use record_lib.Base.{ℕ, zero, suc, Option, none, some, ◌==◌, ltb, if◌then◌else◌, ◌>>=◌}
use record_lib.Links.{Ptr, null}
use record_lib.RbTree.{RbTree, left, right, son_of, key_of, load}

unfoldable pub search_loop : ℕ → (key : ℕ) (x : Ptr) → RbTree → Option Ptr
search_loop zero key x t = none
search_loop (suc k) key x t =
    let round = (do
      kx ← key_of x t
      x' ← son_of (if ltb key kx then left else right) x t
      let next = search_loop k key x' t
      if key == kx then some x else next) in
    if x == t.nil then some x else round

unfoldable pub rb_search : ℕ → (key : ℕ) → RbTree → Option Ptr
unfolding search_loop
rb_search fuel key t = search_loop fuel key t.root t

-- What a caller gets of the node: its `data`, and NULL for the sentinel.
unfoldable pub read_node : (z : Ptr) → RbTree → Option Ptr
read_node z t = let found = (do n ← load z t; some n.val) in if z == t.nil then some null else found

unfoldable pub rb_search_key : ℕ → (key : ℕ) → RbTree → Option Ptr
unfolding read_node
rb_search_key fuel key t = do z ← rb_search fuel key t; read_node z t

unfoldable pub tree_minimum : ℕ → (x : Ptr) → RbTree → Option Ptr
tree_minimum zero x t = none
tree_minimum (suc k) x t = do
  l ← son_of left x t
  let next = tree_minimum k l t
  if l == t.nil then some x else next

unfoldable pub tree_minimum_node : ℕ → RbTree → Option Ptr
unfolding tree_minimum
tree_minimum_node fuel t =
    let least = tree_minimum fuel t.root t in if t.root == t.nil then some t.nil else least

-- The key and, for a tree that is not empty, the value of its least node.
unfoldable pub tree_minimum_key : ℕ → RbTree → Option (ℕ × Option ℕ)
unfolding tree_minimum
tree_minimum_key fuel t =
    let least = (do x ← tree_minimum fuel t.root t; n ← load x t; some (n.key, some n.val)) in
    if t.root == t.nil then some (0, none) else least
