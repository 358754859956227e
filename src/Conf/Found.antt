-- ===== src/Conf/Found.antt =====
-- The reads of a configuration tree in src/conf/pconf.cpp find what the file holds.
use mathlib.Core.Option
use record_lib.Base.{
  ℕ, zero, suc, ◌+◌, ◌≤◌, ◌≡◌, refl, ap, ◌∙◌, Bool, true, false, Option, some, none, List, [], ◌∷◌,
  ◌==◌, arith, length, get_elem?, if◌then◌else◌,
}
use record_lib.Conf.{Conf, null, conf_node, ok, array_t}
use record_lib.Conf.Parser.{stored_name, stored_value, bytes_eq, parse}
use record_lib.Conf.Lookup.{
  get_value_from_node, get_submod_from_node, get_array_from_node, count_elements,
  get_size_from_array, element_at, get_value_from_array_by_index,
}
use record_lib.Conf.Text.{
  Bytes, Items, File, nil, value, block, array, process, render_file, values_conf, items_conf,
  file_conf, GoodFile, file_weight,
}
use record_lib.Conf.RoundTrip.{parse-render_file}

-- The first entry of a name.
abbrev pub assoc {ℓ} : {A : Type ℓ} → Bytes → List (Bytes × A) → Option A
assoc n [] = none
assoc n ((m, a) ∷ entries) = if bytes_eq n m then some a else assoc n entries

-- The values, blocks and arrays at the top of a file, under the names that the nodes keep.
abbrev pub top_values : File → List (Bytes × Bytes)
top_values nil = []
top_values (value n v f) = (stored_name n, stored_value v) ∷ top_values f
top_values (block n inner f) = top_values f
top_values (array n vs f) = top_values f
top_values (process n inner f) = top_values f

abbrev pub top_blocks : File → List (Bytes × Items)
top_blocks nil = []
top_blocks (value n v f) = top_blocks f
top_blocks (block n inner f) = (stored_name n, inner) ∷ top_blocks f
top_blocks (array n vs f) = top_blocks f
top_blocks (process n inner f) = top_blocks f

abbrev pub top_arrays : File → List (Bytes × List Bytes)
top_arrays nil = []
top_arrays (value n v f) = top_arrays f
top_arrays (block n inner f) = top_arrays f
top_arrays (array n vs f) = (stored_name n, vs) ∷ top_arrays f
top_arrays (process n inner f) = top_arrays f

-- The values in a block.
abbrev block_values : Items → List (Bytes × Bytes)
block_values nil = []
block_values (value n v is) = (stored_name n, stored_value v) ∷ block_values is
block_values (block n inner is) = block_values is
block_values (array n vs is) = block_values is

get_value_from_node-file :
    (f : File) (vn : Bytes) → get_value_from_node (file_conf f) vn ≡ assoc vn (top_values f)
unfolding get_value_from_node
get_value_from_node-file nil vn = refl
get_value_from_node-file (value n v f) vn =
    ap (λ r. if bytes_eq vn (stored_name n) then some (stored_value v) else r)
      (get_value_from_node-file f vn)
get_value_from_node-file (block n inner f) vn = get_value_from_node-file f vn
get_value_from_node-file (array n vs f) vn = get_value_from_node-file f vn
get_value_from_node-file (process n inner f) vn = get_value_from_node-file f vn

get_value_from_node-items :
    (is : Items) (vn : Bytes) → get_value_from_node (items_conf is) vn ≡ assoc vn (block_values is)
unfolding get_value_from_node
get_value_from_node-items nil vn = refl
get_value_from_node-items (value n v is) vn =
    ap (λ r. if bytes_eq vn (stored_name n) then some (stored_value v) else r)
      (get_value_from_node-items is vn)
get_value_from_node-items (block n inner is) vn = get_value_from_node-items is vn
get_value_from_node-items (array n vs is) vn = get_value_from_node-items is vn

-- The tree of a block, NULL where there is none.
abbrev block_conf : Option Items → Conf
block_conf none = null
block_conf (some is) = items_conf is

block_conf-if :
    (b : Bool) (is : Items) (o : Option Items)
    → (if b then items_conf is else block_conf o) ≡ block_conf (if b then some is else o)
block_conf-if true is o = refl
block_conf-if false is o = refl

get_submod_from_node-file :
    (f : File) (mn : Bytes)
    → get_submod_from_node (file_conf f) mn ≡ block_conf (assoc mn (top_blocks f))
unfolding get_submod_from_node
get_submod_from_node-file nil mn = refl
get_submod_from_node-file (value n v f) mn = get_submod_from_node-file f mn
get_submod_from_node-file (block n inner f) mn =
    ap (λ r. if bytes_eq mn (stored_name n) then items_conf inner else r)
      (get_submod_from_node-file f mn)
    ∙ block_conf-if (bytes_eq mn (stored_name n)) inner (assoc mn (top_blocks f))
get_submod_from_node-file (array n vs f) mn = get_submod_from_node-file f mn
get_submod_from_node-file (process n inner f) mn = get_submod_from_node-file f mn

count_elements-values :
    (vs : List Bytes) (size : ℕ) → count_elements (values_conf vs) size ≡ some (size + length vs)
unfolding count_elements
count_elements-values [] size = ap some (omega arith)
count_elements-values (v ∷ vs) size = count_elements-values vs (size + 1) ∙ ap some (omega arith)

-- The value in a place, as the node keeps it.
abbrev stored_at : List Bytes → ℕ → Option Bytes
stored_at vs i = Option.map stored_value (get_elem? vs i)

element_at-values :
    (vs : List Bytes) (inpos i : ℕ)
    → element_at (values_conf vs) inpos (inpos + i) ≡ some (stored_at vs i)
unfolding element_at
element_at-values [] inpos i = refl
element_at-values (v ∷ vs) inpos zero =
    let e : (inpos + 0 == inpos) ≡ true = ground arith in rw e refl
element_at-values (v ∷ vs) inpos (suc i) =
    let e : (inpos + suc i == inpos) ≡ false = ground arith in
    let p : inpos + suc i ≡ inpos + 1 + i = omega arith in
    rw (e, p) (element_at-values vs (inpos + 1) i)

abbrev size_of : Option (List Bytes) → ℕ
size_of none = 0
size_of (some vs) = length vs

abbrev stored_of : Option (List Bytes) → ℕ → Option Bytes
stored_of none i = none
stored_of (some vs) i = stored_at vs i

-- The reads of an array node find the values, and do not run off the chain.
abbrev pub ReadsArray : Conf → Option (List Bytes) → Type 0
ReadsArray c o =
    (get_size_from_array c ≡ some (size_of o))
    × ((i : ℕ) → get_value_from_array_by_index c i ≡ some (stored_of o i))

null-ReadsArray : ReadsArray null none
unfolding get_size_from_array get_value_from_array_by_index
null-ReadsArray = (refl, λ i. refl)

node-ReadsArray :
    (n : Bytes) (vs : List Bytes) (next : Conf)
    → ReadsArray (conf_node n [] array_t (values_conf vs) next) (some vs)
unfolding get_size_from_array get_value_from_array_by_index
node-ReadsArray n vs next = (
  count_elements-values vs 0 ∙ ap some (omega arith),
  λ i.
      let p : i ≡ 0 + i = omega arith in
      ap (element_at (values_conf vs) 0) p ∙ element_at-values vs 0 i,
)

if-ReadsArray :
    (b : Bool) (c d : Conf) (vs : List Bytes) (o : Option (List Bytes))
    → ReadsArray c (some vs)
    → ReadsArray d o
    → ReadsArray (if b then c else d) (if b then some vs else o)
if-ReadsArray true c d vs o here there = here
if-ReadsArray false c d vs o here there = there

get_array_from_node-ReadsArray :
    (f : File) (mn : Bytes)
    → ReadsArray (get_array_from_node (file_conf f) mn) (assoc mn (top_arrays f))
unfolding get_array_from_node
get_array_from_node-ReadsArray nil mn = null-ReadsArray
get_array_from_node-ReadsArray (value n v f) mn = get_array_from_node-ReadsArray f mn
get_array_from_node-ReadsArray (block n inner f) mn = get_array_from_node-ReadsArray f mn
get_array_from_node-ReadsArray (array n vs f) mn =
    if-ReadsArray (bytes_eq mn (stored_name n)) _ (get_array_from_node (file_conf f) mn) vs
      (assoc mn (top_arrays f)) (node-ReadsArray (stored_name n) vs (file_conf f))
      (get_array_from_node-ReadsArray f mn)
get_array_from_node-ReadsArray (process n inner f) mn = get_array_from_node-ReadsArray f mn

-- A value in a block, if both are there.
abbrev pub value_in : Option Items → Bytes → Option Bytes
value_in none vn = none
value_in (some is) vn = assoc vn (block_values is)

get_value_from_node-block :
    (o : Option Items) (vn : Bytes) → get_value_from_node (block_conf o) vn ≡ value_in o vn
unfolding get_value_from_node
get_value_from_node-block none vn = refl
get_value_from_node-block (some is) vn = get_value_from_node-items is vn

-- For a configuration (GoodFile) that is written out with a newline at its end, given as much fuel
-- as it has rounds and a pointer `name` that is not NULL after it: parse succeeds with a tree in
-- which get_value_from_node finds for each name the first value of that name at the top of the
-- configuration, and get_value_from_node in what get_submod_from_node finds for a name gives the
-- first value of a name in the first block of that name; where there is none, both give NULL.
pub read_values :
    (fuel : ℕ) (f : File)
    → GoodFile f
    → file_weight f ≤ fuel
    → (c : Conf) × (parse false fuel (render_file f) ≡ ok (some c))
      × ((vn : Bytes) → get_value_from_node c vn ≡ assoc vn (top_values f))
      × ((mn vn : Bytes)
          → get_value_from_node (get_submod_from_node c mn) vn
            ≡ value_in (assoc mn (top_blocks f)) vn)
read_values fuel f good enough = (
  file_conf f,
  parse-render_file false fuel f good enough,
  get_value_from_node-file f,
  λ mn vn.
      ap (λ (c : Conf). get_value_from_node c vn) (get_submod_from_node-file f mn)
      ∙ get_value_from_node-block (assoc mn (top_blocks f)) vn,
)

-- For a configuration (GoodFile) that is written out with a newline at its end, given as much fuel
-- as it has rounds and a pointer `name` that is not NULL after it: parse succeeds with a tree in
-- which, for each name, the array that get_array_from_node finds has the size of the first array
-- of that name and at each index its value there, cut to 127 bytes, or NULL behind its end; where
-- there is no such array the size is 0 and each value NULL. No read runs off the chain.
pub read_arrays :
    (fuel : ℕ) (f : File)
    → GoodFile f
    → file_weight f ≤ fuel
    → (c : Conf) × (parse false fuel (render_file f) ≡ ok (some c))
      × ((mn : Bytes) → ReadsArray (get_array_from_node c mn) (assoc mn (top_arrays f)))
read_arrays fuel f good enough =
    (file_conf f, parse-render_file false fuel f good enough, get_array_from_node-ReadsArray f)
