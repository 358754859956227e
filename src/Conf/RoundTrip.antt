-- ===== src/Conf/RoundTrip.antt =====
-- The parser of src/conf/pconf.cpp reads back what a configuration is written as.
use record_lib.Base.{
  ℕ, zero, suc, ◌+◌, ◌-◌, ◌≤◌, ◌≡◌, ◌≢◌, refl, ap, ◌∙◌, Bool, true, false, some, none, [], ◌∷◌,
  ◌++◌, arith, if◌then◌else◌,
}
use record_lib.Conf.{
  State, at, Outcome, ok, failed, Conf, NodeType, blank, null, char_t, subnode_t, array_t,
  proc_mod_t, conf_node, ◌>>=◌,
}
use record_lib.Conf.Chars.{valid_name, jump}
use record_lib.Conf.Scan.{jumpspace, find_valid_name, name_at}
use record_lib.Conf.Parser.{
  chained, sub_value, parse_arraylh, sub_loop, sub_round, deeper, parse_smodlh, stored_name,
  stored_value, proc, parse_main, main_name, main_value, parse, parse_result,
}
use record_lib.Conf.Text.{
  Bytes, IsName, IsValue, Items, File, nil, value, block, array, process, render_values,
  render_items, render_file, values_conf, items_conf, file_conf, IsKey, GoodItems, GoodFile,
  items_weight, file_weight,
}
use record_lib.Conf.Rounds.{sub_loop-name, parse_main-name, parse_arraylh-values}
use record_lib.Conf.Entries.{
  entry_block, entry_array, entry_value, entry_name, sub_value_lem, main_value_lem, main_value-last,
  main_value-proc,
}

render_items-cons : (is : Items) (rest : Bytes) → render_items is rest ≢ []
render_items-cons nil rest e = cc
render_items-cons (value [] v is) rest e = cc
render_items-cons (value (x ∷ n) v is) rest e = cc
render_items-cons (block [] inner is) rest e = cc
render_items-cons (block (x ∷ n) inner is) rest e = cc
render_items-cons (array [] vs is) rest e = cc
render_items-cons (array (x ∷ n) vs is) rest e = cc

items_weight-positive : (is : Items) → ¬ (items_weight is ≤ 0)
items_weight-positive nil h = omega arith
items_weight-positive (value n v is) h = omega arith
items_weight-positive (block n inner is) h = omega arith
items_weight-positive (array n vs is) h = omega arith

-- The rest of a chain, behind a node.
abbrev node_before :
    (n v : Bytes) → NodeType → Conf → Outcome (State × Conf) → Outcome (State × Conf)
node_before n v ntype m o =
    o >>= (λ r. ok (r.0, conf_node (stored_name n) (stored_value v) ntype m r.1))

-- The items of an open block up to its brace, whatever stands behind.
sub_loop-render_items :
    (is : Items) (k : ℕ) (rest : Bytes) (l d : ℕ)
    → GoodItems is
    → items_weight is ≤ k
    → sub_loop k (at (render_items is rest) l (d + 1)) ≡ ok (at rest l d, items_conf is)
unfolding sub_loop sub_round jumpspace jump valid_name
sub_loop-render_items is zero rest l d good fuel = absurd (items_weight-positive is fuel)
sub_loop-render_items nil (suc k) rest l d good fuel =
    let e : d + 1 - 1 ≡ d = omega arith in ap (λ n. ok (at rest l n, blank)) e
sub_loop-render_items (value n v is) (suc k) rest l d ((name, key), val, all) fuel =
    sub_loop-name k n b' ' (v ++ b';' ∷ render_items is rest) l (d + 1) name refl
    ∙ entry_value (parse_arraylh k) (deeper (sub_loop k)) (sub_loop k) (sub_value (sub_loop k)) n v
        (b';' ∷ render_items is rest) l (d + 1) val
    ∙ sub_value_lem (sub_loop k) n v (render_items is rest) l (d + 1) val key
        (render_items-cons is rest)
    ∙ ap (node_before n v char_t null) (sub_loop-render_items is k rest l d all (omega arith))
sub_loop-render_items (block n inner is) (suc k) rest l d (name, good, all) fuel =
    sub_loop-name k n b'{' (render_items inner (render_items is rest)) l (d + 1) name refl
    ∙ entry_block (parse_arraylh k) (deeper (sub_loop k)) (sub_loop k) (sub_value (sub_loop k)) n
        (render_items inner (render_items is rest)) l (d + 1)
    ∙ ap (λ (o : Outcome (State × Conf)). o >>= (λ r. chained n [] subnode_t r.1 (sub_loop k) r.0))
        (sub_loop-render_items inner k (render_items is rest) l (d + 1) good (omega arith))
    ∙ ap (node_before n [] subnode_t (items_conf inner))
        (sub_loop-render_items is k rest l d all (omega arith))
sub_loop-render_items (array n vs is) (suc k) rest l d (name, good, all) fuel =
    sub_loop-name k n b'[' (render_values vs (render_items is rest)) l (d + 1) name refl
    ∙ entry_array (parse_arraylh k) (deeper (sub_loop k)) (sub_loop k) (sub_value (sub_loop k)) n
        (render_values vs (render_items is rest)) l (d + 1)
    ∙ ap (λ (o : Outcome (State × Conf)). o >>= (λ r. chained n [] array_t r.1 (sub_loop k) r.0))
        (parse_arraylh-values k vs (render_items is rest) l (d + 1) good (omega arith))
    ∙ ap (node_before n [] array_t (values_conf vs))
        (sub_loop-render_items is k rest l d all (omega arith))

render_file-cons : (f : File) → render_file f ≢ []
render_file-cons nil e = cc
render_file-cons (value [] v f) e = cc
render_file-cons (value (x ∷ n) v f) e = cc
render_file-cons (block [] inner f) e = cc
render_file-cons (block (x ∷ n) inner f) e = cc
render_file-cons (array [] vs f) e = cc
render_file-cons (array (x ∷ n) vs f) e = cc
render_file-cons (process n inner f) e = cc

file_weight-positive : (f : File) → ¬ (file_weight f ≤ 0)
file_weight-positive nil h = omega arith
file_weight-positive (value n v f) h = omega arith
file_weight-positive (block n inner f) h = omega arith
file_weight-positive (array n vs f) h = omega arith
file_weight-positive (process n inner f) h = omega arith

-- What comes of the space at the end of a file.
abbrev ended : Bool → State → Conf → Outcome (State × Conf)
ended true s m = failed
ended false s m = ok (s, m)

node_before-ended :
    (b : Bool) (n v : Bytes) (ntype : NodeType) (m next : Conf) (s : State)
    → node_before n v ntype m (ended b s next)
      ≡ ended b s (conf_node (stored_name n) (stored_value v) ntype m next)
node_before-ended true n v ntype m next s = refl
node_before-ended false n v ntype m next s = refl

parse_main-end :
    (b : Bool) (k l d : ℕ)
    → parse_main b (suc k) (at (b'\n' ∷ []) l d) ≡ ended b (at [] (l + 1) d) blank
unfolding parse_main find_valid_name name_at main_name jumpspace jump
parse_main-end true k l d = refl
parse_main-end false k l d = refl

proc-IsName : IsName proc
unfolding valid_name
proc-IsName = (refl, (refl, (refl, (refl, (refl, tt)))))

parse_main-render_file :
    (b : Bool) (f : File) (k l : ℕ)
    → GoodFile f
    → file_weight f ≤ k
    → parse_main b k (at (render_file f) l 0) ≡ ended b (at [] (l + 1) 0) (file_conf f)
unfolding parse_smodlh valid_name
parse_main-render_file b f zero l good fuel = absurd (file_weight-positive f fuel)
parse_main-render_file b nil (suc k) l good fuel = parse_main-end b k l 0
parse_main-render_file b (value n v f) (suc k) l ((name, key), val, all) fuel =
    parse_main-name b k n b' ' (v ++ b';' ∷ render_file f) l 0 name refl
    ∙ entry_value (parse_arraylh k) (parse_smodlh k) (parse_main b k)
        (main_value (parse_smodlh k) (parse_main b k)) n v (b';' ∷ render_file f) l 0 val
    ∙ main_value_lem (parse_smodlh k) (parse_main b k) n v (render_file f) l 0 val key
        (render_file-cons f)
    ∙ ap (node_before n v char_t null) (parse_main-render_file b f k l all (omega arith))
    ∙ node_before-ended b n v char_t null (file_conf f) (at [] (l + 1) 0)
parse_main-render_file b (block n inner f) (suc k) l (name, good, all) fuel =
    parse_main-name b k n b'{' (render_items inner (render_file f)) l 0 name refl
    ∙ entry_block (parse_arraylh k) (parse_smodlh k) (parse_main b k)
        (main_value (parse_smodlh k) (parse_main b k)) n (render_items inner (render_file f)) l 0
    ∙ ap
        (λ (o : Outcome (State × Conf)).
          o >>= (λ r. chained n [] subnode_t r.1 (parse_main b k) r.0))
        (sub_loop-render_items inner k (render_file f) l 0 good (omega arith))
    ∙ ap (node_before n [] subnode_t (items_conf inner))
        (parse_main-render_file b f k l all (omega arith))
    ∙ node_before-ended b n [] subnode_t (items_conf inner) (file_conf f) (at [] (l + 1) 0)
parse_main-render_file b (array n vs f) (suc k) l (name, good, all) fuel =
    parse_main-name b k n b'[' (render_values vs (render_file f)) l 0 name refl
    ∙ entry_array (parse_arraylh k) (parse_smodlh k) (parse_main b k)
        (main_value (parse_smodlh k) (parse_main b k)) n (render_values vs (render_file f)) l 0
    ∙ ap
        (λ (o : Outcome (State × Conf)). o >>= (λ r. chained n [] array_t r.1 (parse_main b k) r.0))
        (parse_arraylh-values k vs (render_file f) l 0 good (omega arith))
    ∙ ap (node_before n [] array_t (values_conf vs))
        (parse_main-render_file b f k l all (omega arith))
    ∙ node_before-ended b n [] array_t (values_conf vs) (file_conf f) (at [] (l + 1) 0)
parse_main-render_file b (process n inner f) (suc k) l (name, good, all) fuel =
    parse_main-name b k proc b' ' (n ++ b'{' ∷ render_items inner (render_file f)) l 0 proc-IsName
      refl
    ∙ entry_name (parse_arraylh k) (parse_smodlh k) (parse_main b k)
        (main_value (parse_smodlh k) (parse_main b k)) proc n
        (b'{' ∷ render_items inner (render_file f)) l 0 name
    ∙ main_value-proc (parse_smodlh k) (parse_main b k) n (render_items inner (render_file f)) l 0
        name
    ∙ ap
        (λ (o : Outcome (State × Conf)).
          o >>= (λ r. chained n [] proc_mod_t r.1 (parse_main b k) r.0))
        (sub_loop-render_items inner k (render_file f) l 0 good (omega arith))
    ∙ ap (node_before n [] proc_mod_t (items_conf inner))
        (parse_main-render_file b f k l all (omega arith))
    ∙ node_before-ended b n [] proc_mod_t (items_conf inner) (file_conf f) (at [] (l + 1) 0)

-- For every configuration of values, nested blocks, arrays and processes (GoodFile: names and
-- values are not empty and of valid characters, a value's name is not the keyword, no value starts
-- with a brace or `#`) that is written out with a newline at its end: with as much fuel as it has
-- rounds, parse succeeds with the tree that it stands for, names cut to 63 and values to 127
-- bytes, when the uninitialised pointer `name` is not NULL after the newline, and refuses the file
-- when it is.
pub parse-render_file :
    (unset_null : Bool) (fuel : ℕ) (f : File)
    → GoodFile f
    → file_weight f ≤ fuel
    → parse unset_null fuel (render_file f) ≡ ok (if unset_null then none else some (file_conf f))
unfolding parse
parse-render_file true fuel f good enough =
    rw (parse_main-render_file true f fuel 1 good enough) refl
parse-render_file false fuel f good enough =
    rw (parse_main-render_file false f fuel 1 good enough) refl

-- A text that is a name other than the keyword, a blank, a value and a semicolon as its last byte
-- is refused by parse, with any positive fuel.
pub parse_last_value :
    (unset_null : Bool) (fuel : ℕ) (n v : Bytes)
    → IsKey n
    → IsValue v
    → parse unset_null (suc fuel) (n ++ (b' ' ∷ (v ++ (b';' ∷ [])))) ≡ ok none
unfolding parse valid_name
parse_last_value b k n v (name, key) good = ap parse_result (
    parse_main-name b k n b' ' (v ++ b';' ∷ []) 1 0 name refl
    ∙ entry_value (parse_arraylh k) (parse_smodlh k) (parse_main b k)
        (main_value (parse_smodlh k) (parse_main b k)) n v (b';' ∷ []) 1 0 good
    ∙ main_value-last (parse_smodlh k) (parse_main b k) n v 1 0 good key)
