-- ===== src/Conf/Lookup.antt =====
-- The reads of a configuration tree in src/conf/pconf.cpp. The walks over an array follow the chain
-- until a node of another type, and fault at its end; the walks over nodes stop at NULL.
use record_lib.Base.{ℕ, ◌+◌, Bool, ◌&&◌, Option, none, some, List, ◌==◌, if◌then◌else◌}
use record_lib.Conf.{
  NodeType, empty_t, char_t, subnode_t, proc_mod_t, array_t, array_ele, cmd_t, Conf, null,
  conf_node,
}
use record_lib.Conf.Parser.{bytes_eq}

abbrev tag : NodeType → ℕ
tag empty_t = 0
tag char_t = 1
tag subnode_t = 2
tag proc_mod_t = 3
tag array_t = 4
tag array_ele = 5
tag cmd_t = 6

abbrev same_type : NodeType → NodeType → Bool
same_type t u = tag t == tag u

unfoldable pub get_proc_mod : Conf → Conf
get_proc_mod null = null
get_proc_mod (conf_node modn var ntype smodlh next) =
    let rest = get_proc_mod next in
    if same_type ntype proc_mod_t then conf_node modn var ntype smodlh next else rest

unfoldable pub get_value_from_node : Conf → List ℕ → Option (List ℕ)
get_value_from_node null vn = none
get_value_from_node (conf_node modn var ntype smodlh next) vn =
    let rest = get_value_from_node next vn in
    if same_type ntype char_t && bytes_eq vn modn then some var else rest

unfoldable pub get_submod_from_node : Conf → List ℕ → Conf
get_submod_from_node null mn = null
get_submod_from_node (conf_node modn var ntype smodlh next) mn =
    let rest = get_submod_from_node next mn in
    if same_type ntype subnode_t && bytes_eq mn modn then smodlh else rest

unfoldable pub get_array_from_node : Conf → List ℕ → Conf
get_array_from_node null mn = null
get_array_from_node (conf_node modn var ntype smodlh next) mn =
    let rest = get_array_from_node next mn in
    if same_type ntype array_t && bytes_eq mn modn
    then conf_node modn var ntype smodlh next
    else rest

-- The `while` of the two functions below; `none` is a read through NULL.
unfoldable pub count_elements : Conf → ℕ → Option ℕ
count_elements null size = none
count_elements (conf_node modn var ntype smodlh next) size =
    let rest = count_elements next (size + 1) in
    if same_type ntype array_ele then rest else some size

unfoldable pub get_size_from_array : Conf → Option ℕ
unfolding count_elements
get_size_from_array null = some 0
get_size_from_array (conf_node modn var ntype smodlh next) =
    let elements = count_elements smodlh 0 in if same_type ntype array_t then elements else some 0

unfoldable pub element_at : Conf → (inpos index : ℕ) → Option (Option (List ℕ))
element_at null inpos index = none
element_at (conf_node modn var ntype smodlh next) inpos index =
    let rest = element_at next (inpos + 1) index in
    if same_type ntype array_ele
    then (if index == inpos then some (some var) else rest)
    else some none

-- The inner `none` is NULL.
unfoldable pub get_value_from_array_by_index : Conf → (index : ℕ) → Option (Option (List ℕ))
unfolding element_at
get_value_from_array_by_index null index = some none
get_value_from_array_by_index (conf_node modn var ntype smodlh next) index =
    let found = element_at smodlh 0 index in if same_type ntype array_t then found else some none
