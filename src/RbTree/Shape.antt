-- ===== src/RbTree/Shape.antt =====
-- The trees that the memory of src/datas/pure_rbtree.cpp stands for.
use record_lib.Base.{ℕ, suc, ◌+◌, ◌≤◌, ◌≡◌, ◌==◌, false, some, List, [], ◌∷◌, ◌++◌}
use record_lib.Links.{Ptr}
use record_lib.RbTree.{RbNode, Memory}

pub data Tree : Type 0 where
  leaf : Tree
  branch : (a : Ptr) → (c k v : ℕ) → (l r : Tree) → Tree

abbrev pub root_of : Ptr → Tree → Ptr
root_of nil leaf = nil
root_of nil (branch a c k v l r) = a

abbrev pub rb : (parent lson rson : Ptr) → (c k v : ℕ) → RbNode
rb p l r c k v = record { parent = p; lson = l; rson = r; colour = c; key = k; val = v }

-- The nodes of a tree are in memory, linked both ways; the sentinel is none of them.
abbrev pub IsTree : Memory → (nil parent : Ptr) → Tree → Type 0
IsTree mem nil p leaf = Unit
IsTree mem nil p (branch a c k v l r) =
    ((a == nil) ≡ false)
    × (mem a ≡ some (rb p (root_of nil l) (root_of nil r) c k v))
    × IsTree mem nil a l
    × IsTree mem nil a r

-- The keys and values in order.
abbrev pub entries : Tree → List (ℕ × ℕ)
entries leaf = []
entries (branch a c k v l r) = entries l ++ ((k, v) ∷ entries r)

abbrev pub height : Tree → ℕ
height leaf = 0
height (branch a c k v l r) = suc (height l + height r)

abbrev pub AllKeys : (ℕ → Type 0) → Tree → Type 0
AllKeys P leaf = Unit
AllKeys P (branch a c k v l r) = P k × AllKeys P l × AllKeys P r

-- No key on the left is above, and none on the right below, the key of a node.
abbrev pub Ordered : Tree → Type 0
Ordered leaf = Unit
Ordered (branch a c k v l r) =
    AllKeys (λ j. j ≤ k) l × AllKeys (λ j. k ≤ j) r × Ordered l × Ordered r
