-- ===== src/Conf/Parser.antt =====
-- The recursive descent of src/conf/pconf.cpp. The loops are on fuel; each takes the calls that it
-- makes with less fuel as arguments.
use record_lib.Base.{
  ℕ, zero, suc, ◌+◌, ◌-◌, Bool, true, false, ◌&&◌, Option, none, some, List, [], ◌∷◌, ◌==◌,
  if◌then◌else◌, take,
}
use record_lib.Conf.{
  NodeType, char_t, subnode_t, proc_mod_t, array_t, array_ele, Conf, null, conf_node, blank, State,
  Outcome, ok, failed, fault, out_of_fuel, ◌>>=◌,
}
use record_lib.Conf.Scan.{
  Found, find_valid_array_value, find_valid_name, find_valid_value, found, is_array_node,
  is_sub_node, jumpspace, missing, starts_with, unset,
}

abbrev pub bytes_eq : List ℕ → List ℕ → Bool
bytes_eq [] [] = true
bytes_eq (x ∷ xs) (y ∷ ys) = (x == y) && bytes_eq xs ys
bytes_eq _ _ = false

-- The only keyword is "proc".
abbrev pub proc : List ℕ
proc = b'p' ∷ b'r' ∷ b'o' ∷ b'c' ∷ []

unfoldable pub check_keyword : List ℕ → NodeType
check_keyword name = if bytes_eq name proc then proc_mod_t else char_t

-- The buffers of a node have 64 and 128 bytes.
abbrev pub stored_name : List ℕ → List ℕ
stored_name = take 63

abbrev pub stored_value : List ℕ → List ℕ
stored_value = take 127

abbrev pub at_end : State → Bool
at_end s = elim s.text [ [] ↦ true | _ ↦ false ]

abbrev tail : List ℕ → List ℕ
tail [] = []
tail (c ∷ cs) = cs

-- `p++`
abbrev pub skip_one : State → State
skip_one s = record s { text = tail s.text }

abbrev pub Parse : Type 0
Parse = State → Outcome (State × Conf)

-- The node is filled in, and the loop goes on with a new node behind it.
abbrev pub chained : (name value : List ℕ) → NodeType → Conf → Parse → Parse
chained name value ntype smodlh more s = do
  (s, next) ← more s
  ok (s, conf_node (stored_name name) (stored_value value) ntype smodlh next)

-- One round of `parse_arraylh`: a value after an optional comma.
unfoldable pub element : Parse → State × Found → Outcome (State × Conf)
element more (s, found value) = if at_end s then failed else chained [] value array_ele null more s
element more (s, _) = failed

unfoldable pub array_comma : Parse → (common_need : Bool) → State → Outcome (State × Conf)
unfolding element
array_comma more true s =
    if starts_with b',' s.text
    then (do r ← find_valid_array_value (skip_one s); element more r)
    else failed
array_comma more false s = do r ← find_valid_array_value s; element more r

unfoldable pub array_round : Parse → Bool → State → Outcome (State × Conf)
unfolding array_comma
array_round more common_need s =
    let next = array_comma more common_need s in
    if at_end s
    then failed
    else if starts_with b']' s.text
    then ok (record (skip_one s) { level = s.level - 1 }, blank)
    else next

unfoldable pub array_loop : ℕ → Bool → Parse
unfolding array_round
array_loop zero common_need s = out_of_fuel
array_loop (suc k) common_need s =
    let next = array_round (array_loop k true) common_need (jumpspace s) in
    if at_end s then ok (s, blank) else next

unfoldable pub parse_arraylh : ℕ → Parse
unfolding array_loop
parse_arraylh fuel s = array_loop fuel false (record s { level = s.level + 1 })

-- `name value;`
unfoldable pub value_node : Parse → List ℕ → State × Found → Outcome (State × Conf)
value_node more name (s, found value) =
    if at_end s then failed else chained name value char_t null more s
value_node more name (s, _) = failed

-- `{` or `[` behind a name, or else what `otherwise` does with the name.
unfoldable pub entry : (array sub more : Parse) → (otherwise : List ℕ → Parse) → List ℕ → Parse
entry array sub more otherwise name s =
    let (is_sub, s₁) = is_sub_node s in
    let (is_array, s₂) = is_array_node s₁ in
    let as_sub = (do (s, m) ← sub (skip_one (jumpspace s₁)); chained name [] subnode_t m more s) in
    let as_array = (do
      (s, m) ← array (skip_one (jumpspace s₂))
      chained name [] array_t m more s) in
    let as_value = otherwise name s₂ in
    if is_sub then as_sub else if is_array then as_array else as_value

-- In a block the keyword is refused.
unfoldable pub sub_value : Parse → List ℕ → Parse
unfolding value_node
sub_value more name s = elim (check_keyword name) [
  | char_t ↦ do r ← find_valid_value s; value_node more name r
  | _ ↦ failed
]

-- A round of `parse_smodlh` at a name.
unfoldable pub sub_name : (array sub more : Parse) → State × Found → Outcome (State × Conf)
unfolding entry sub_value
sub_name array sub more (s, found name) =
    let next = entry array sub more (sub_value more) name s in if at_end s then failed else next
sub_name array sub more (s, missing) = failed
sub_name array sub more (s, unset) = fault

unfoldable pub sub_round : (array sub more : Parse) → Parse
unfolding sub_name
sub_round array sub more s =
    let next = (do r ← find_valid_name s; sub_name array sub more r) in
    if at_end s
    then failed
    else if starts_with b'}' s.text
    then ok (record (skip_one s) { level = s.level - 1 }, blank)
    else next

abbrev pub deeper : Parse → Parse
deeper parse s = parse (record s { level = s.level + 1 })

unfoldable pub sub_loop : ℕ → Parse
unfolding sub_round
sub_loop zero s = out_of_fuel
sub_loop (suc k) s =
    let next = sub_round (parse_arraylh k) (deeper (sub_loop k)) (sub_loop k) (jumpspace s) in
    if at_end s then ok (s, blank) else next

unfoldable pub parse_smodlh : ℕ → Parse
unfolding sub_loop
parse_smodlh fuel = deeper (sub_loop fuel)

-- `proc name {`
unfoldable pub proc_name : (sub more : Parse) → State × Found → Outcome (State × Conf)
proc_name sub more (s, found name) =
    let s₁ = jumpspace s in
    let next = (do (s, m) ← sub (skip_one s₁); chained name [] proc_mod_t m more s) in
    if at_end s then failed else if starts_with b'{' s₁.text then next else failed
proc_name sub more (s, _) = failed

unfoldable pub main_value : (sub more : Parse) → List ℕ → Parse
unfolding value_node proc_name
main_value sub more name s = elim (check_keyword name) [
  | char_t ↦ do r ← find_valid_value s; value_node more name r
  | proc_mod_t ↦ do r ← find_valid_name s; proc_name sub more r
  | _ ↦ failed
]

-- The variable `name` of a round is not initialised, and `unset_null` says whether its bits are NULL.
-- A name at the end of the text ends the loop, as no name does.
unfoldable pub main_name :
    (unset_null : Bool) → (array sub more : Parse) → State × Found → Outcome (State × Conf)
unfolding entry main_value
main_name unset_null array sub more (s, found name) =
    let next = entry array sub more (main_value sub more) name s in
    if at_end s then ok (s, blank) else next
main_name unset_null array sub more (s, missing) = failed
main_name unset_null array sub more (s, unset) = if unset_null then failed else ok (s, blank)

unfoldable pub parse_main : (unset_null : Bool) → ℕ → Parse
unfolding main_name
parse_main unset_null zero s = out_of_fuel
parse_main unset_null (suc k) s =
    let next = (do
      r ← find_valid_name s
      main_name unset_null (parse_arraylh k) (parse_smodlh k) (parse_main unset_null k) r) in
    if at_end s then ok (s, blank) else next

-- `parse`: it succeeds at the end of the text with all blocks closed.
abbrev pub parsed : State × Conf → Option Conf
parsed (s, conf) = if at_end s && s.level == 0 then some conf else none

abbrev pub parse_result : Outcome (State × Conf) → Outcome (Option Conf)
parse_result (ok r) = ok (parsed r)
parse_result failed = ok none
parse_result fault = fault
parse_result out_of_fuel = out_of_fuel

unfoldable pub parse : (unset_null : Bool) → ℕ → List ℕ → Outcome (Option Conf)
parse unset_null fuel text =
    parse_result (parse_main unset_null fuel (record { text = text; linenum = 1; level = 0 }))
