-- ===== src/Conf/Termination.antt =====
-- The parser of src/conf/pconf.cpp ends: each round of its loops reads a byte.
use record_lib.Base.{
  ℕ, zero, suc, ◌+◌, ◌-◌, ◌≤◌, ◌<◌, ◌≡◌, refl, Bool, true, false, not, ◌&&◌, ◌||◌, ◌⊎◌, List, [],
  ◌∷◌, ◌==◌, arith, length, if◌then◌else◌, inl, inr, Bool-cases, Option, none,
}
use record_lib.Conf.{
  char_t, subnode_t, proc_mod_t, array_t, Conf, State, at, Outcome, ok, failed, fault, out_of_fuel,
}
use record_lib.Conf.Chars.{is_space, jump}
use record_lib.Conf.Scan.{
  jumpspace, Found, unset, missing, found, starts_with, is_sub_node, is_array_node,
}
use record_lib.Conf.Parser.{
  at_end, skip_one, Parse, check_keyword, parse_arraylh, entry, sub_value, bytes_eq, proc, sub_name,
  sub_round, deeper, sub_loop, parse_smodlh, proc_name, main_value, main_name, parse_main, parse,
  parse_result, parsed,
}
use record_lib.Conf.Text.{starts_word}
use record_lib.Conf.Yields.{
  Yields, yields, refused, bind, mono, either, AllAscii, Within, jumpspace-Within, skip_one-Within,
}
use record_lib.Conf.Reads.{
  Read, Read-weaken, Written, find_valid_name-Read, find_valid_name-Written, find_valid_value-Read,
}
use record_lib.Conf.Fuel.{
  Total, Stays, inner-Stays, value_node-Stays, closed-Stays, parse_arraylh-Total,
}

Stays-weaken : (n m : ℕ) (o : Outcome (State × Conf)) → n ≤ m → Stays n o → Stays m o
Stays-weaken n m o le h = mono h (λ r w. (omega (arith, w.0), w.1))

check_keyword-name :
    (name : List ℕ) → (check_keyword name ≡ proc_mod_t) ⊎ (check_keyword name ≡ char_t)
unfolding check_keyword
check_keyword-name name = elim (Bool-cases (bytes_eq name proc)) [
  | inl e ↦ inl (rw e refl)
  | inr e ↦ inr (rw e refl)
]

entry-Stays :
    (k n : ℕ) (array sub more : Parse) (otherwise : List ℕ → Parse) (name : List ℕ) (s : State)
    → Total k array
    → Total k sub
    → Total k more
    → n < k
    → ((s' : State) → Within n s' → Stays n (otherwise name s'))
    → Within n s
    → Stays n (entry array sub more otherwise name s)
unfolding entry is_sub_node is_array_node
entry-Stays k n array sub more otherwise name s a_total s_total m_total small other (short, ascii) =
    let (_, s₁) = is_sub_node s in
    let (_, s₂) = is_array_node s₁ in
    let (short₁, ascii₁) = jumpspace-Within s₁ ascii in
    let (short₂, ascii₂) = jumpspace-Within s₂ ascii in
    let (short₁', ascii₁') = skip_one-Within (jumpspace s₁) ascii₁ in
    let (short₂', ascii₂') = skip_one-Within (jumpspace s₂) ascii₂ in
    either (starts_with b'{' (jumpspace s).text)
      (inner-Stays k n name subnode_t sub more (skip_one (jumpspace s₁)) s_total m_total small
        (omega arith, ascii₁'))
      (either (starts_with b'[' (jumpspace s₁).text)
        (inner-Stays k n name array_t array more (skip_one (jumpspace s₂)) a_total m_total small
          (omega arith, ascii₂'))
        (other s₂ (short, ascii)))

sub_value-Stays :
    (k n : ℕ) (more : Parse) (name : List ℕ) (s : State)
    → Total k more
    → n ≤ k
    → Within n s
    → Stays n (sub_value more name s)
unfolding sub_value
sub_value-Stays k n more name s total le (short, ascii) = elim (check_keyword-name name) [
  | inl e ↦ rw (e, sub_value) refused
  | inr e ↦
      rw (e, sub_value)
        (bind (find_valid_value-Read s ascii)
          (λ r h. value_node-Stays k n more name r total le (Read-weaken _ n r short h)))
]

sub_name-Stays :
    (k n : ℕ) (array sub more : Parse) (r : State × Found)
    → Total k array
    → Total k sub
    → Total k more
    → n ≤ k
    → Written n r
    → Stays n (sub_name array sub more r)
unfolding sub_name
sub_name-Stays k n array sub more (s, found name) a_total s_total m_total le (short, ascii) =
    either (at_end s) refused (
      Stays-weaken (length s.text) n _ (omega arith) (
        entry-Stays k (length s.text) array sub more (sub_value more) name s a_total s_total m_total
          (omega arith)
          (λ s' w. sub_value-Stays k (length s.text) more name s' m_total (omega arith) w)
          (omega arith, ascii)))
sub_name-Stays k n array sub more (s, missing) a_total s_total m_total le h = refused
sub_name-Stays k n array sub more (s, unset) a_total s_total m_total le h = absurd h

word_start : (b p q : Bool) → (b || p || q) ≡ false → not (p || q) ≡ true
word_start true p q e = cc
word_start false true q e = cc
word_start false false true e = cc
word_start false false false e = refl

-- The walk over space and comments stops in front of a word.
jump_start :
    (b : Bool) (t : List ℕ) (l : ℕ) → ((jump b t l).0 ≡ []) ⊎ (starts_word (jump b t l).0 ≡ true)
unfolding jump
jump_start b [] l = inl refl
jump_start b (c ∷ cs) l =
    let rest =
      jump_start (not (c == b'\n') && (b || c == b'#')) cs (if c == b'\n' then l + 1 else l) in
    elim (Bool-cases (b || is_space c || c == b'#')) [
      | inl e ↦ rw e rest
      | inr e ↦ rw e (inr (word_start b (is_space c) (c == b'#') e))
    ]

sub_round-Stays :
    (k : ℕ) (array sub more : Parse) (t : List ℕ) (l d : ℕ)
    → Total k array
    → Total k sub
    → Total k more
    → length t ≤ k
    → (t ≡ []) ⊎ (starts_word t ≡ true)
    → AllAscii t
    → Stays (length t) (sub_round array sub more (at t l d))
unfolding sub_round
sub_round-Stays k array sub more [] l d a_total s_total m_total le start ascii = refused
sub_round-Stays k array sub more (c ∷ cs) l d a_total s_total m_total le (inl e) ascii = cc
sub_round-Stays k array sub more (c ∷ cs) l d a_total s_total m_total le (inr w) ascii =
    either (c == b'}')
      (closed-Stays (length (c ∷ cs)) (d - 1) (at (c ∷ cs) l d) (omega arith, ascii))
      (bind (find_valid_name-Written (c ∷ cs) l d w ascii)
        (λ r h. sub_name-Stays k (length (c ∷ cs)) array sub more r a_total s_total m_total le h))

deeper-Total : (k : ℕ) (p : Parse) → Total k p → Total k (deeper p)
deeper-Total k p total s small ascii = total (record s { level = s.level + 1 }) small ascii

sub_loop-Total : (k : ℕ) → Total k (sub_loop k)
unfolding sub_loop jumpspace
sub_loop-Total zero s small ascii = absurd (omega arith)
sub_loop-Total (suc k) s small ascii =
    let (short, ascii') = jumpspace-Within s ascii in
    either (at_end s) (yields (omega arith, ascii)) (
      Stays-weaken (length (jumpspace s).text) (length s.text) _ short (
        sub_round-Stays k (parse_arraylh k) (deeper (sub_loop k)) (sub_loop k) (jumpspace s).text
          (jumpspace s).linenum (jumpspace s).level (parse_arraylh-Total k)
          (deeper-Total k (sub_loop k) (sub_loop-Total k)) (sub_loop-Total k) (omega arith)
          (jump_start false s.text s.linenum) ascii'))

parse_smodlh-Total : (k : ℕ) → Total k (parse_smodlh k)
unfolding parse_smodlh
parse_smodlh-Total k = deeper-Total k (sub_loop k) (sub_loop-Total k)

proc_name-Stays :
    (k n : ℕ) (sub more : Parse) (r : State × Found)
    → Total k sub
    → Total k more
    → n ≤ k
    → Read n r
    → Stays n (proc_name sub more r)
unfolding proc_name
proc_name-Stays k n sub more (s, found name) s_total m_total le (short, ascii) =
    let (short', ascii') = jumpspace-Within s ascii in
    let (skipped, ascii'') = skip_one-Within (jumpspace s) ascii' in
    either (at_end s) refused (
      either (starts_with b'{' (jumpspace s).text)
        (Stays-weaken (length s.text) n _ (omega arith) (
          inner-Stays k (length s.text) name proc_mod_t sub more (skip_one (jumpspace s)) s_total
            m_total (omega arith) (omega arith, ascii'')))
        refused)
proc_name-Stays k n sub more (s, missing) s_total m_total le h = refused
proc_name-Stays k n sub more (s, unset) s_total m_total le h = refused

main_value-Stays :
    (k n : ℕ) (sub more : Parse) (name : List ℕ) (s : State)
    → Total k sub
    → Total k more
    → n ≤ k
    → Within n s
    → Stays n (main_value sub more name s)
unfolding main_value
main_value-Stays k n sub more name s s_total m_total le (short, ascii) =
    elim (check_keyword-name name) [
      | inl e ↦
          rw (e, main_value)
            (bind (find_valid_name-Read s ascii) (λ r h.
              proc_name-Stays k n sub more r s_total m_total le (Read-weaken _ n r short h)))
      | inr e ↦
          rw (e, main_value)
            (bind (find_valid_value-Read s ascii)
              (λ r h. value_node-Stays k n more name r m_total le (Read-weaken _ n r short h)))
    ]

main_name-Stays :
    (b : Bool) (k n : ℕ) (array sub more : Parse) (r : State × Found)
    → Total k array
    → Total k sub
    → Total k more
    → n ≤ k
    → Read n r
    → Stays n (main_name b array sub more r)
unfolding main_name
main_name-Stays b k n array sub more (s, found name) a_total s_total m_total le (short, ascii) =
    either (at_end s) (yields (omega arith, ascii)) (
      Stays-weaken (length s.text) n _ (omega arith) (
        entry-Stays k (length s.text) array sub more (main_value sub more) name s a_total s_total
          m_total (omega arith)
          (λ s' w.
            main_value-Stays k (length s.text) sub more name s' s_total m_total (omega arith) w)
          (omega arith, ascii)))
main_name-Stays b k n array sub more (s, missing) a_total s_total m_total le h = refused
main_name-Stays b k n array sub more (s, unset) a_total s_total m_total le h =
    either b refused (yields h)

parse_main-Total : (b : Bool) (k : ℕ) → Total k (parse_main b k)
unfolding parse_main
parse_main-Total b zero s small ascii = absurd (omega arith)
parse_main-Total b (suc k) s small ascii = either (at_end s) (yields (omega arith, ascii)) (
    bind (find_valid_name-Read s ascii) (λ r h.
      main_name-Stays b k (length s.text) (parse_arraylh k) (parse_smodlh k) (parse_main b k) r
        (parse_arraylh-Total k) (parse_smodlh-Total k) (parse_main-Total b k) (omega arith) h))

parse_result-returns :
    (P : State × Conf → Type 0) (o : Outcome (State × Conf))
    → Yields P o
    → (conf : Option Conf) × (parse_result o ≡ ok conf)
parse_result-returns P (ok r) (yields h) = (parsed r, refl)
parse_result-returns P failed refused = (none, refl)
parse_result-returns P fault h = elim h [ ]
parse_result-returns P out_of_fuel h = elim h [ ]

-- On every text of bytes below 128, with more fuel than the text has bytes, parse returns: it
-- gives a tree or refuses the text, and neither runs out of fuel nor reads outside of the tables.
pub parse_returns :
    (unset_null : Bool) (fuel : ℕ) (text : List ℕ)
    → AllAscii text
    → length text < fuel
    → (conf : Option Conf) × (parse unset_null fuel text ≡ ok conf)
unfolding parse
parse_returns b fuel text ascii enough =
    parse_result-returns _ (parse_main b fuel (at text 1 0))
      (parse_main-Total b fuel (at text 1 0) enough ascii)
