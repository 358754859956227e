-- ===== src/Conf/Rounds.antt =====
-- The rounds of the parsing loops of src/conf/pconf.cpp.
use record_lib.Base.{
  ℕ, zero, suc, ◌+◌, ◌-◌, ◌≤◌, ◌≡◌, refl, ap, ◌∙◌, Bool, true, false, some, List, [], ◌∷◌, ◌++◌,
  arith,
}
use record_lib.Conf.{State, at, Outcome, ok, Conf, null, array_ele, conf_node, blank, ◌>>=◌}
use record_lib.Conf.Chars.{valid_name, valid_value, jump}
use record_lib.Conf.Scan.{jumpspace, found, find_valid_array_value}
use record_lib.Conf.Parser.{
  entry, Parse, chained, sub_value, array_loop, array_round, parse_arraylh, sub_loop, sub_round,
  sub_name, deeper, parse_smodlh, array_comma, element, stored_value, parse_main, main_name,
  main_value,
}
use record_lib.Conf.Text.{
  Bytes, IsName, IsValue, render_more, render_values, values_conf, AllValues, values_weight,
}
use record_lib.Conf.Scanned.{jumpspace_word, find_valid_name-word, find_valid_array_value-word}
use record_lib.Conf.Entries.{valid_differ}

-- A round at a name reads the name, and goes on behind it.
pub sub_loop-name :
    (k : ℕ) (n : Bytes) (c : ℕ) (t : Bytes) (l d : ℕ)
    → IsName n
    → valid_name c ≡ some false
    → sub_loop (suc k) (at (n ++ c ∷ t) l d)
      ≡ entry
          (parse_arraylh k)
          (deeper (sub_loop k))
          (sub_loop k)
          (sub_value (sub_loop k))
          n
          (at (c ∷ t) l d)
unfolding sub_loop sub_round sub_name valid_name
sub_loop-name k [] c t l d (w, all) stop = cc
sub_loop-name k (x ∷ n) c t l d (w, (good, all)) stop =
    ap (λ (s : State). sub_round (parse_arraylh k) (deeper (sub_loop k)) (sub_loop k) s)
      (jumpspace_word (x ∷ (n ++ c ∷ t)) l d w)
    ∙ rw
        (
          valid_differ valid_name x b'}' good refl,
          find_valid_name-word (x ∷ n) c t l d (w, (good, all)) stop,
        )
        refl

pub parse_main-name :
    (b : Bool) (k : ℕ) (n : Bytes) (c : ℕ) (t : Bytes) (l d : ℕ)
    → IsName n
    → valid_name c ≡ some false
    → parse_main b (suc k) (at (n ++ c ∷ t) l d)
      ≡ entry
          (parse_arraylh k)
          (parse_smodlh k)
          (parse_main b k)
          (main_value (parse_smodlh k) (parse_main b k))
          n
          (at (c ∷ t) l d)
unfolding parse_main main_name
parse_main-name b k [] c t l d (w, all) stop = cc
parse_main-name b k (x ∷ n) c t l d good stop =
    rw (find_valid_name-word (x ∷ n) c t l d good stop) refl

-- The values of an array, from a comma on.
find_valid_array_value-more :
    (v : Bytes) (vs : List Bytes) (rest : Bytes) (l d : ℕ)
    → IsValue v
    → find_valid_array_value (at (v ++ render_more vs rest) l d)
      ≡ ok (at (render_more vs rest) l d, found v)
unfolding valid_value
find_valid_array_value-more v [] rest l d good =
    find_valid_array_value-word v b']' rest l d good refl refl
find_valid_array_value-more v (x ∷ vs) rest l d good =
    find_valid_array_value-word v b',' (x ++ render_more vs rest) l d good refl refl

element_lem :
    (more : Parse) (v : Bytes) (vs : List Bytes) (rest : Bytes) (l d : ℕ)
    → element more (at (render_more vs rest) l d, found v)
      ≡ chained [] v array_ele null more (at (render_more vs rest) l d)
unfolding element
element_lem more v [] rest l d = refl
element_lem more v (x ∷ vs) rest l d = refl

values_weight-positive : (vs : List Bytes) → ¬ (values_weight vs ≤ 0)
values_weight-positive [] h = omega arith
values_weight-positive (v ∷ vs) h = omega arith

array_loop-more :
    (k : ℕ) (vs : List Bytes) (rest : Bytes) (l d : ℕ)
    → AllValues vs
    → values_weight vs ≤ k
    → array_loop k true (at (render_more vs rest) l (d + 1)) ≡ ok (at rest l d, values_conf vs)
unfolding array_loop array_round array_comma jumpspace jump
array_loop-more zero vs rest l d good fuel = absurd (values_weight-positive vs fuel)
array_loop-more (suc k) [] rest l d good fuel =
    let e : d + 1 - 1 ≡ d = omega arith in ap (λ n. ok (at rest l n, blank)) e
array_loop-more (suc k) (v ∷ vs) rest l d (good, all) fuel =
    ap (λ o. o >>= element (array_loop k true))
      (find_valid_array_value-more v vs rest l (d + 1) good)
    ∙ element_lem (array_loop k true) v vs rest l (d + 1)
    ∙ ap
        (λ (o : Outcome (State × Conf)).
          o >>= (λ r. ok (r.0, conf_node [] (stored_value v) array_ele null r.1)))
        (array_loop-more k vs rest l d all (omega arith))

-- A whole array behind its bracket.
pub parse_arraylh-values :
    (k : ℕ) (vs : List Bytes) (rest : Bytes) (l d : ℕ)
    → AllValues vs
    → values_weight vs ≤ k
    → parse_arraylh k (at (render_values vs rest) l d) ≡ ok (at rest l d, values_conf vs)
unfolding parse_arraylh array_loop array_round array_comma jumpspace jump valid_value
parse_arraylh-values zero vs rest l d good fuel = absurd (values_weight-positive vs fuel)
parse_arraylh-values (suc k) [] rest l d good fuel =
    let e : d + 1 - 1 ≡ d = omega arith in ap (λ n. ok (at rest l n, blank)) e
parse_arraylh-values (suc k) ([] ∷ vs) rest l d ((w, valid, ne), all) fuel = cc
parse_arraylh-values (suc k) ((x ∷ v) ∷ vs) rest l d ((w, (valid, word), ne), all) fuel =
    ap (array_round (array_loop k true) false)
      (jumpspace_word (x ∷ (v ++ render_more vs rest)) l (d + 1) w)
    ∙ rw
        (
          valid_differ valid_value x b']' valid refl,
          find_valid_array_value-more (x ∷ v) vs rest l (d + 1) (w, (valid, word), ne),
          element_lem (array_loop k true) (x ∷ v) vs rest l (d + 1),
        )
        (ap
          (λ (o : Outcome (State × Conf)).
            o >>= (λ r. ok (r.0, conf_node [] (stored_value (x ∷ v)) array_ele null r.1)))
          (array_loop-more k vs rest l d all (omega arith)))
