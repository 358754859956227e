-- ===== src/Conf/Fuel.antt =====
-- The loops of the parser of src/conf/pconf.cpp end: each round reads a byte.
use record_lib.Base.{ℕ, zero, suc, ◌+◌, ◌-◌, ◌≤◌, ◌<◌, Bool, true, false, List, [], arith, length}
use record_lib.Conf.{NodeType, char_t, array_ele, Conf, null, blank, State, Outcome, ok, ◌>>=◌}
use record_lib.Conf.Scan.{jumpspace, Found, unset, missing, found, starts_with}
use record_lib.Conf.Parser.{
  at_end, skip_one, Parse, chained, element, array_comma, array_round, array_loop, parse_arraylh,
  value_node,
}
use record_lib.Conf.Yields.{
  Yields, yields, refused, bind, mono, either, AllAscii, Within, jumpspace-Within, skip_one-Within,
}
use record_lib.Conf.Reads.{Read, Read-weaken, find_valid_array_value-Read}

-- The call returns with less than `k` bytes to read.
abbrev pub Total : ℕ → Parse → Type 0
Total k p =
    (s : State)
    → length s.text < k
    → AllAscii s.text
    → Yields (λ (r : State × Conf). Within (length s.text) r.0) (p s)

-- The same for a call at a position with at most `n` bytes.
abbrev pub Stays : ℕ → Outcome (State × Conf) → Type 0
Stays n = Yields (λ (r : State × Conf). Within n r.0)

Total-here :
    (k n : ℕ) (p : Parse) (s : State) → Total k p → length s.text < k → Within n s → Stays n (p s)
Total-here k n p s total small (short, ascii) =
    mono (total s small ascii) (λ r h. (omega (arith, h.0), h.1))

chained-Stays :
    (k n : ℕ) (name value : List ℕ) (ntype : NodeType) (m : Conf) (more : Parse) (s : State)
    → Total k more
    → length s.text < k
    → Within n s
    → Stays n (chained name value ntype m more s)
chained-Stays k n name value ntype m more s total small w =
    bind (Total-here k n more s total small w) (λ r h. yields h)

pub inner-Stays :
    (k n : ℕ) (name : List ℕ) (ntype : NodeType) (inner more : Parse) (s : State)
    → Total k inner
    → Total k more
    → n < k
    → Within n s
    → Stays n (inner s >>= (λ r. chained name [] ntype r.1 more r.0))
inner-Stays k n name ntype inner more s in_total more_total small w =
    bind (Total-here k n inner s in_total (omega arith) w)
      (λ r h. chained-Stays k n name [] ntype r.1 more r.0 more_total (omega (arith, h.0)) h)

element-Stays :
    (k n : ℕ) (more : Parse) (r : State × Found)
    → Total k more
    → n ≤ k
    → Read n r
    → Stays n (element more r)
unfolding element
element-Stays k n more (s, found v) total le (short, ascii) =
    either (at_end s) refused
      (chained-Stays k n [] v array_ele null more s total (omega arith) (omega arith, ascii))
element-Stays k n more (s, missing) total le h = refused
element-Stays k n more (s, unset) total le h = refused

pub value_node-Stays :
    (k n : ℕ) (more : Parse) (name : List ℕ) (r : State × Found)
    → Total k more
    → n ≤ k
    → Read n r
    → Stays n (value_node more name r)
unfolding value_node
value_node-Stays k n more name (s, found v) total le (short, ascii) =
    either (at_end s) refused
      (chained-Stays k n name v char_t null more s total (omega arith) (omega arith, ascii))
value_node-Stays k n more name (s, missing) total le h = refused
value_node-Stays k n more name (s, unset) total le h = refused

array_comma-Stays :
    (k n : ℕ) (more : Parse) (b : Bool) (s : State)
    → Total k more
    → n ≤ k
    → Within n s
    → Stays n (array_comma more b s)
unfolding array_comma
array_comma-Stays k n more true s total le (short, ascii) =
    let (skipped, ascii') = skip_one-Within s ascii in
    either (starts_with b',' s.text)
      (bind (find_valid_array_value-Read (skip_one s) ascii')
        (λ r h. element-Stays k n more r total le (Read-weaken _ n r (omega arith) h)))
      refused
array_comma-Stays k n more false s total le (short, ascii) =
    bind (find_valid_array_value-Read s ascii)
      (λ r h. element-Stays k n more r total le (Read-weaken _ n r short h))

-- The closing bracket of an array or a block.
pub closed-Stays :
    (n level : ℕ) (s : State)
    → Within n s
    → Stays n (ok (record (skip_one s) { level = level }, blank))
closed-Stays n level s (short, ascii) =
    let (skipped, ascii') = skip_one-Within s ascii in yields (omega arith, ascii')

array_round-Stays :
    (k n : ℕ) (more : Parse) (b : Bool) (s : State)
    → Total k more
    → n ≤ k
    → Within n s
    → Stays n (array_round more b s)
unfolding array_round
array_round-Stays k n more b s total le w = either (at_end s) refused (
    either (starts_with b']' s.text) (closed-Stays n (s.level - 1) s w)
      (array_comma-Stays k n more b s total le w))

array_loop-Total : (k : ℕ) (b : Bool) → Total k (array_loop k b)
unfolding array_loop
array_loop-Total zero b s small ascii = absurd (omega arith)
array_loop-Total (suc k) b s small ascii = either (at_end s) (yields (omega arith, ascii)) (
    array_round-Stays k (length s.text) (array_loop k true) b (jumpspace s)
      (array_loop-Total k true) (omega arith) (jumpspace-Within s ascii))

pub parse_arraylh-Total : (k : ℕ) → Total k (parse_arraylh k)
unfolding parse_arraylh
parse_arraylh-Total k s small ascii =
    array_loop-Total k false (record s { level = s.level + 1 }) small ascii
