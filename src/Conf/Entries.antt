-- ===== src/Conf/Entries.antt =====
-- What the parser of src/conf/pconf.cpp does behind a name.
use record_lib.Base.{
  ℕ, ◌≡◌, refl, sym, ap, ◌∙◌, ◌≢◌, Bool, true, false, Option, some, List, [], ◌∷◌, ◌++◌, ◌==◌,
  arith, inl, inr, Bool-cases,
}
use record_lib.Conf.{State, at, failed, null, char_t, subnode_t, array_t, proc_mod_t, ◌>>=◌}
use record_lib.Conf.Chars.{valid_name, valid_value, jump}
use record_lib.Conf.Scan.{
  jumpspace, found, find_valid_name, starts_with, is_sub_node, is_array_node, name_at,
}
use record_lib.Conf.Parser.{
  entry, Parse, chained, sub_value, main_value, value_node, check_keyword, bytes_eq, proc,
  proc_name,
}
use record_lib.Conf.Text.{Bytes, IsName, IsValue, starts_word}
use record_lib.Conf.Scanned.{
  jumpspace_word, jumpspace_space, find_valid_value-word, find_valid_name-word,
}

pub entry_block :
    (array sub more : Parse) (otherwise : List ℕ → Parse) (n t : Bytes) (l d : ℕ)
    → entry array sub more otherwise n (at (b'{' ∷ t) l d)
      ≡ (sub (at t l d) >>= (λ r. chained n [] subnode_t r.1 more r.0))
unfolding entry is_sub_node is_array_node jumpspace jump
entry_block array sub more otherwise n t l d = refl

pub entry_array :
    (array sub more : Parse) (otherwise : List ℕ → Parse) (n t : Bytes) (l d : ℕ)
    → entry array sub more otherwise n (at (b'[' ∷ t) l d)
      ≡ (array (at t l d) >>= (λ r. chained n [] array_t r.1 more r.0))
unfolding entry is_sub_node is_array_node jumpspace jump
entry_array array sub more otherwise n t l d = refl

-- A valid character is not an invalid one.
pub valid_differ :
    (valid : ℕ → Option Bool) (x y : ℕ)
    → valid x ≡ some true
    → valid y ≡ some false
    → (x == y) ≡ false
valid_differ valid x y good bad = elim (Bool-cases (x == y)) [
  | inl e ↦
      let p : x ≡ y = ground arith in
      let q : some true ≡ some false = sym good ∙ ap valid p ∙ bad in cc
  | inr e ↦ e
]

-- Neither a block nor an array.
entry_other :
    (array sub more : Parse) (otherwise : List ℕ → Parse) (n : Bytes) (s s₁ s₂ : State)
    → is_sub_node s ≡ (false, s₁)
    → is_array_node s₁ ≡ (false, s₂)
    → entry array sub more otherwise n s ≡ otherwise n s₂
unfolding entry
entry_other array sub more otherwise n s s₁ s₂ as_sub as_array = rw (as_sub, as_array) refl

entry_word :
    (array sub more : Parse) (otherwise : List ℕ → Parse) (n v rest : Bytes) (l d : ℕ)
    → starts_word v ≡ true
    → starts_with b'{' v ≡ false
    → starts_with b'[' v ≡ false
    → entry array sub more otherwise n (at (b' ' ∷ (v ++ rest)) l d)
      ≡ otherwise n (at (b' ' ∷ (v ++ rest)) l d)
unfolding is_sub_node is_array_node
entry_word array sub more otherwise n [] rest l d w no_brace no_bracket = cc
entry_word array sub more otherwise n (x ∷ v) rest l d w no_brace no_bracket =
    let t : Bytes = x ∷ (v ++ rest) in
    let p : jumpspace (at (b' ' ∷ t) l d) ≡ at t l d =
      jumpspace_space t l d ∙ jumpspace_word t l d w in
    let as_sub : is_sub_node (at (b' ' ∷ t) l d) ≡ (false, at (b' ' ∷ t) l d) =
      ap (λ (s : State). (starts_with b'{' s.text, at (b' ' ∷ t) s.linenum d)) p
      ∙ ap (λ b. (b, at (b' ' ∷ t) l d)) no_brace in
    let as_array : is_array_node (at (b' ' ∷ t) l d) ≡ (false, at (b' ' ∷ t) l d) =
      ap (λ (s : State). (starts_with b'[' s.text, at (b' ' ∷ t) s.linenum d)) p
      ∙ ap (λ b. (b, at (b' ' ∷ t) l d)) no_bracket in
    entry_other array sub more otherwise n _ _ _ as_sub as_array

pub entry_value :
    (array sub more : Parse) (otherwise : List ℕ → Parse) (n v rest : Bytes) (l d : ℕ)
    → IsValue v
    → entry array sub more otherwise n (at (b' ' ∷ (v ++ rest)) l d)
      ≡ otherwise n (at (b' ' ∷ (v ++ rest)) l d)
unfolding valid_value
entry_value array sub more otherwise n [] rest l d (w, all, no_brace) = cc
entry_value array sub more otherwise n (x ∷ v) rest l d (w, (good, all), no_brace) =
    entry_word array sub more otherwise n (x ∷ v) rest l d w no_brace
      (valid_differ valid_value x b'[' good refl)

pub entry_name :
    (array sub more : Parse) (otherwise : List ℕ → Parse) (n v rest : Bytes) (l d : ℕ)
    → IsName v
    → entry array sub more otherwise n (at (b' ' ∷ (v ++ rest)) l d)
      ≡ otherwise n (at (b' ' ∷ (v ++ rest)) l d)
unfolding valid_name
entry_name array sub more otherwise n [] rest l d (w, all) = cc
entry_name array sub more otherwise n (x ∷ v) rest l d (w, (good, all)) =
    entry_word array sub more otherwise n (x ∷ v) rest l d w
      (valid_differ valid_name x b'{' good refl) (valid_differ valid_name x b'[' good refl)

check_keyword-name : (n : Bytes) → bytes_eq n proc ≡ false → check_keyword n ≡ char_t
unfolding check_keyword
check_keyword-name n key = rw key refl

pub sub_value_lem :
    (more : Parse) (n v t : Bytes) (l d : ℕ)
    → IsValue v
    → bytes_eq n proc ≡ false
    → t ≢ []
    → sub_value more n (at (b' ' ∷ (v ++ b';' ∷ t)) l d) ≡ chained n v char_t null more (at t l d)
unfolding sub_value value_node
sub_value_lem more n v [] l d good key ne = absurd (ne refl)
sub_value_lem more n v (c ∷ rest) l d good key ne =
    rw (check_keyword-name n key, sub_value, find_valid_value-word v (c ∷ rest) l d good) refl

pub main_value_lem :
    (sub more : Parse) (n v t : Bytes) (l d : ℕ)
    → IsValue v
    → bytes_eq n proc ≡ false
    → t ≢ []
    → main_value sub more n (at (b' ' ∷ (v ++ b';' ∷ t)) l d)
      ≡ chained n v char_t null more (at t l d)
unfolding main_value value_node
main_value_lem sub more n v [] l d good key ne = absurd (ne refl)
main_value_lem sub more n v (c ∷ rest) l d good key ne =
    rw (check_keyword-name n key, main_value, find_valid_value-word v (c ∷ rest) l d good) refl

find_valid_name-space :
    (t : Bytes) (l d : ℕ) → find_valid_name (at (b' ' ∷ t) l d) ≡ find_valid_name (at t l d)
unfolding find_valid_name
find_valid_name-space t l d = ap (λ (s : State). name_at s s.text) (jumpspace_space t l d)

-- A block behind the name of a process.
proc_name_lem :
    (sub more : Parse) (n t : Bytes) (l d : ℕ)
    → proc_name sub more (at (b'{' ∷ t) l d, found n)
      ≡ (sub (at t l d) >>= (λ r. chained n [] proc_mod_t r.1 more r.0))
unfolding proc_name jumpspace jump
proc_name_lem sub more n t l d = refl

pub main_value-proc :
    (sub more : Parse) (n t : Bytes) (l d : ℕ)
    → IsName n
    → main_value sub more proc (at (b' ' ∷ (n ++ b'{' ∷ t)) l d)
      ≡ (sub (at t l d) >>= (λ r. chained n [] proc_mod_t r.1 more r.0))
unfolding main_value proc_name check_keyword valid_name
main_value-proc sub more n t l d good =
    ap (λ r. r >>= proc_name sub more)
      (find_valid_name-space (n ++ b'{' ∷ t) l d ∙ find_valid_name-word n b'{' t l d good refl)
    ∙ proc_name_lem sub more n t l d

-- A value whose `;` is the last byte.
pub main_value-last :
    (sub more : Parse) (n v : Bytes) (l d : ℕ)
    → IsValue v
    → bytes_eq n proc ≡ false
    → main_value sub more n (at (b' ' ∷ (v ++ b';' ∷ [])) l d) ≡ failed
unfolding main_value value_node
main_value-last sub more n v l d good key =
    rw (check_keyword-name n key, main_value, find_valid_value-word v [] l d good) refl
