-- ===== src/Conf/Text.antt =====
-- Configurations, how they are written as text for src/conf/pconf.cpp, and the tree that they stand
-- for.
use record_lib.Base.{
  ℕ, suc, ◌+◌, ◌≡◌, ◌||◌, not, Bool, true, false, Option, some, List, [], ◌∷◌, ◌++◌, ◌==◌,
}
use record_lib.Conf.{
  Conf, null, conf_node, blank, char_t, subnode_t, proc_mod_t, array_t, array_ele,
}
use record_lib.Conf.Chars.{valid_name, valid_value, is_space}
use record_lib.Conf.Scan.{starts_with}
use record_lib.Conf.Parser.{stored_name, stored_value, bytes_eq, proc}

abbrev pub Bytes : Type 0
Bytes = List ℕ

-- What a block holds, in order.
pub data Items : Type 0 where
  nil : Items
  value : (name val : Bytes) → Items → Items
  block : (name : Bytes) → (inner rest : Items) → Items
  array : (name : Bytes) → List Bytes → Items → Items

-- What a file holds: `proc` stands at its top only.
pub data File : Type 0 where
  nil : File
  value : (name val : Bytes) → File → File
  block : (name : Bytes) → Items → File → File
  array : (name : Bytes) → List Bytes → File → File
  process : (name : Bytes) → Items → File → File

abbrev pub render_more : List Bytes → Bytes → Bytes
render_more [] rest = b']' ∷ rest
render_more (v ∷ vs) rest = b',' ∷ (v ++ render_more vs rest)

abbrev pub render_values : List Bytes → Bytes → Bytes
render_values [] rest = b']' ∷ rest
render_values (v ∷ vs) rest = v ++ render_more vs rest

-- The items of a block, its closing brace, and the text behind it.
abbrev pub render_items : Items → Bytes → Bytes
render_items nil rest = b'}' ∷ rest
render_items (value n v is) rest = n ++ (b' ' ∷ (v ++ (b';' ∷ render_items is rest)))
render_items (block n inner is) rest = n ++ (b'{' ∷ render_items inner (render_items is rest))
render_items (array n vs is) rest = n ++ (b'[' ∷ render_values vs (render_items is rest))

-- A file ends with a newline.
abbrev pub render_file : File → Bytes
render_file nil = b'\n' ∷ []
render_file (value n v f) = n ++ (b' ' ∷ (v ++ (b';' ∷ render_file f)))
render_file (block n inner f) = n ++ (b'{' ∷ render_items inner (render_file f))
render_file (array n vs f) = n ++ (b'[' ∷ render_values vs (render_file f))
render_file (process n inner f) =
    b'p' ∷ b'r' ∷ b'o' ∷ b'c' ∷ b' ' ∷ (n ++ (b'{' ∷ render_items inner (render_file f)))

abbrev pub values_conf : List Bytes → Conf
values_conf [] = blank
values_conf (v ∷ vs) = conf_node [] (stored_value v) array_ele null (values_conf vs)

abbrev pub items_conf : Items → Conf
items_conf nil = blank
items_conf (value n v is) = conf_node (stored_name n) (stored_value v) char_t null (items_conf is)
items_conf (block n inner is) =
    conf_node (stored_name n) [] subnode_t (items_conf inner) (items_conf is)
items_conf (array n vs is) = conf_node (stored_name n) [] array_t (values_conf vs) (items_conf is)

abbrev pub file_conf : File → Conf
file_conf nil = blank
file_conf (value n v f) = conf_node (stored_name n) (stored_value v) char_t null (file_conf f)
file_conf (block n inner f) =
    conf_node (stored_name n) [] subnode_t (items_conf inner) (file_conf f)
file_conf (array n vs f) = conf_node (stored_name n) [] array_t (values_conf vs) (file_conf f)
file_conf (process n inner f) =
    conf_node (stored_name n) [] proc_mod_t (items_conf inner) (file_conf f)

abbrev pub AllValid : (ℕ → Option Bool) → Bytes → Type 0
AllValid valid [] = Unit
AllValid valid (c ∷ cs) = (valid c ≡ some true) × AllValid valid cs

-- A word that no blank and no comment mark starts.
abbrev pub starts_word : Bytes → Bool
starts_word [] = false
starts_word (c ∷ cs) = not (is_space c || c == b'#')

abbrev pub IsName : Bytes → Type 0
IsName n = (starts_word n ≡ true) × AllValid valid_name n

-- A value may hold braces, but starts with none.
abbrev pub IsValue : Bytes → Type 0
IsValue v = (starts_word v ≡ true) × AllValid valid_value v × (starts_with b'{' v ≡ false)

abbrev pub AllValues : List Bytes → Type 0
AllValues [] = Unit
AllValues (v ∷ vs) = IsValue v × AllValues vs

-- The keyword is the name of no value.
abbrev pub IsKey : Bytes → Type 0
IsKey n = IsName n × (bytes_eq n proc ≡ false)

abbrev pub GoodItems : Items → Type 0
GoodItems nil = Unit
GoodItems (value n v is) = IsKey n × IsValue v × GoodItems is
GoodItems (block n inner is) = IsName n × GoodItems inner × GoodItems is
GoodItems (array n vs is) = IsName n × AllValues vs × GoodItems is

abbrev pub GoodFile : File → Type 0
GoodFile nil = Unit
GoodFile (value n v f) = IsKey n × IsValue v × GoodFile f
GoodFile (block n inner f) = IsName n × GoodItems inner × GoodFile f
GoodFile (array n vs f) = IsName n × AllValues vs × GoodFile f
GoodFile (process n inner f) = IsName n × GoodItems inner × GoodFile f

-- The rounds that the loops of the parser take.
abbrev pub values_weight : List Bytes → ℕ
values_weight [] = 1
values_weight (v ∷ vs) = suc (values_weight vs)

abbrev pub items_weight : Items → ℕ
items_weight nil = 1
items_weight (value n v is) = suc (items_weight is)
items_weight (block n inner is) = suc (items_weight inner + items_weight is)
items_weight (array n vs is) = suc (values_weight vs + items_weight is)

abbrev pub file_weight : File → ℕ
file_weight nil = 1
file_weight (value n v f) = suc (file_weight f)
file_weight (block n inner f) = suc (items_weight inner + file_weight f)
file_weight (array n vs f) = suc (values_weight vs + file_weight f)
file_weight (process n inner f) = suc (items_weight inner + file_weight f)
