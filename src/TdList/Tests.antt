-- ===== src/TdList/Tests.antt =====
-- Runs of the list, and its theorems at a list of two nodes.
use record_lib.Base.{ℕ, ◌≡◌, refl, none, some, [], ◌∷◌, ◌==◌, if◌then◌else◌, arith, Returns}
use record_lib.Links.{node, Heap, modify, set_prev, set_next}
use record_lib.Links.Seg.{Cells}
use record_lib.TdList.{TdList, add_node_to_tail, remove_node, clear_list, get_first, get_num_nodes}
use record_lib.TdList.Inv.{IsList, Holds}
use record_lib.TdList.Remove.{Removed, remove_node-Removed}
use record_lib.TdList.Walk.{Cleared, clear_list-Cleared}

-- Nodes 1 and 2 are linked, node 3 is not.
abbrev heap : Heap ℕ
heap a =
    if a == 1
    then some (node 10 0 2)
    else if a == 2
    then some (node 20 1 0)
    else if a == 3
    then some (node 30 0 0)
    else none

abbrev two_nodes : TdList ℕ
two_nodes = record { heap = heap; head = 1; tail = 2; num_nodes = 2 }

abbrev cells : Cells ℕ
cells = (1, 10) ∷ (2, 20) ∷ []

two_nodes-IsList : IsList two_nodes cells
two_nodes-IsList = record {
  chain = (ground arith, refl, (ground arith, refl, tt));
  distinct = (refl, (refl, tt));
  head = refl;
  tail = refl;
  count = refl;
}

third-Holds : Holds heap 3 30
third-Holds = record { live = omega arith; content = node 30 0 0; at = refl; element = refl }

count_after_add :
    Returns (λ s. (get_num_nodes s ≡ 3) × (get_first s ≡ 1)) (add_node_to_tail 3 two_nodes)
unfolding add_node_to_tail set_prev set_next modify get_num_nodes get_first
count_after_add = Returns.returns (refl, refl)

remove_node-Removed_example :
    Returns (Removed ((1, 10) ∷ []) 2 20 [] two_nodes) (remove_node 2 two_nodes)
remove_node-Removed_example = remove_node-Removed ((1, 10) ∷ []) 2 20 [] two_nodes-IsList

clear_list-Cleared_example : Returns (Cleared cells two_nodes) (clear_list 3 two_nodes)
clear_list-Cleared_example = clear_list-Cleared 3 two_nodes-IsList (omega arith)
