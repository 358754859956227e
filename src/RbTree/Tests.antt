-- ===== src/RbTree/Tests.antt =====
-- Runs of the red-black tree.
use record_lib.Base.{
  ℕ, zero, suc, ◌*◌, ◌≡◌, refl, Option, none, some, List, [], ◌∷◌, ◌++◌, ◌==◌, if◌then◌else◌, ◌>>=◌,
  Returns, arith,
}
use record_lib.Links.{Ptr}
use record_lib.RbTree.{RbTree, RbNode, Memory, left, empty_tree, load, rotate, replace, put}
use record_lib.RbTree.Search.{rb_search_key, rb_search, tree_minimum}
use record_lib.RbTree.Insert.{rb_insert_key_data}
use record_lib.RbTree.Shape.{Tree, leaf, branch, rb, entries}
use record_lib.RbTree.Found.{Holds, Reads, rb_search_key-Reads}
use record_lib.RbTree.Context.{inside, top}
use record_lib.RbTree.Turn.{Stands, upright, Turned, rotate-Turned}
use record_lib.RbTree.Delete.{rb_delete_key, rb_destroy}

-- The keys below a node in order, with the colours.
abbrev keys : ℕ → Ptr → RbTree → Option (List (ℕ × ℕ))
keys zero x t = none
keys (suc k) x t =
    let round = (do
      n ← load x t
      ls ← keys k n.lson t
      rs ← keys k n.rson t
      some (ls ++ ((n.key, n.colour) ∷ rs))) in
    if x == t.nil then some [] else round

abbrev insert_all : List (ℕ × Ptr) → RbTree → Option RbTree
insert_all [] t = some t
insert_all ((key, z) ∷ more) t = do
  r ← rb_insert_key_data 20 (some z) key (key * 10) t
  elim r [ none ↦ none | some t ↦ insert_all more t ]

abbrev seven : Option RbTree
seven =
    insert_all ((5, 105) ∷ (3, 103) ∷ (8, 108) ∷ (1, 101) ∷ (4, 104) ∷ (9, 109) ∷ (2, 102) ∷ [])
      (empty_tree 99)

abbrev delete_all : List ℕ → RbTree → Option RbTree
delete_all [] t = some t
delete_all (key ∷ more) t = do (v, t) ← rb_delete_key 20 key t; delete_all more t

abbrev seven_keys : Option (List (ℕ × ℕ))
seven_keys = do t ← seven; keys 10 t.root t

abbrev three_keys : Option (List (ℕ × ℕ))
three_keys = do t ← seven; t ← delete_all (5 ∷ 1 ∷ 9 ∷ 7 ∷ 3 ∷ []) t; keys 10 t.root t

inserted : seven_keys ≡ some ((1, 0) ∷ (2, 1) ∷ (3, 1) ∷ (4, 0) ∷ (5, 0) ∷ (8, 0) ∷ (9, 1) ∷ [])
unfolding rb_insert_key_data put
inserted = refl

deleted : three_keys ≡ some ((2, 0) ∷ (4, 0) ∷ (8, 0) ∷ [])
unfolding rb_insert_key_data put rb_delete_key rb_search tree_minimum replace rotate
deleted = refl

-- After `rb_destroy` no node is left in memory.
abbrev after_destroy : Option (List (Option RbNode))
after_destroy = do
  t ← seven
  t ← rb_destroy 40 t
  some (load 105 t ∷ load 103 t ∷ load 101 t ∷ load 109 t ∷ [])

destroyed : after_destroy ≡ some (none ∷ none ∷ none ∷ none ∷ [])
unfolding rb_insert_key_data put rb_destroy
destroyed = refl

-- The node 30 with the left son 10, whose right son is 20; the sentinel is 99.
abbrev memory : Memory
memory a =
    if a == 30
    then some (rb 99 10 99 0 3 33)
    else if a == 10
    then some (rb 30 99 20 0 1 11)
    else if a == 20
    then some (rb 10 99 99 1 2 22)
    else if a == 99
    then some (rb 99 99 99 0 0 0)
    else none

abbrev three : RbTree
three = record { mem = memory; nil = 99; root = 30 }

abbrev three_tree : Tree
three_tree = branch 30 0 3 33 (branch 10 0 1 11 leaf (branch 20 1 2 22 leaf leaf)) leaf

three-Holds : Holds three three_tree
three-Holds = record {
  root = refl;
  nodes = (refl, refl, (refl, refl, tt, (refl, refl, tt, tt)), tt);
  ordered = omega arith;
}

rb_search_key-Reads_example : Returns (Reads 2 (entries three_tree)) (rb_search_key 4 2 three)
rb_search_key-Reads_example = rb_search_key-Reads 4 2 three three_tree three-Holds (omega arith)

three-Stands :
    Stands three
      (upright left 10 0 1 11 20 1 2 22 leaf leaf leaf (inside left 30 0 3 33 leaf top) three)
      (inside left 30 0 3 33 leaf top)
three-Stands = record {
  below = (refl, refl, tt, (refl, refl, tt, tt));
  above = (refl, refl, tt, refl);
  spread = (refl, refl, (λ a i. absurd (ground arith)), tt, (refl, refl, (λ a i. refl), tt, tt));
  spread_above = (refl, refl, (λ a i. refl), tt);
  apart = λ a i. ground arith;
}

rotate-Turned_example :
    Returns
      (Turned left 10 0 1 11 20 1 2 22 leaf leaf leaf (inside left 30 0 3 33 leaf top) three)
      (rotate left 10 three)
rotate-Turned_example =
    rotate-Turned left 10 0 1 11 20 1 2 22 leaf leaf leaf (inside left 30 0 3 33 leaf top) three
      three-Stands
