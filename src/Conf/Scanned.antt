-- ===== src/Conf/Scanned.antt =====
-- What the scanning functions of src/conf/pconf.cpp find at the start of a text.
use record_lib.Base.{
  ℕ, ◌≡◌, refl, ap, ◌∙◌, ◌||◌, Bool, true, false, Option, some, [], ◌∷◌, ◌++◌, ◌==◌, arith,
}
use record_lib.Conf.{State, at, ok, lift, ◌>>=◌}
use record_lib.Conf.Chars.{valid_name, valid_value, is_space, jump, span}
use record_lib.Conf.Scan.{
  jumpspace, found, find_valid_name, find_valid_value, find_valid_array_value, name_at, value_at,
  array_value_at, value_end, semicolon, array_value_end,
}
use record_lib.Conf.Text.{Bytes, AllValid, starts_word, IsName, IsValue}

jump_word :
    (c : ℕ) (cs : Bytes) (l : ℕ) → starts_word (c ∷ cs) ≡ true → jump false (c ∷ cs) l ≡ (c ∷ cs, l)
unfolding jump
jump_word c cs l w = let e : (false || is_space c || c == b'#') ≡ false = ground arith in rw e refl

-- A word stays where it is.
pub jumpspace_word : (t : Bytes) (l d : ℕ) → starts_word t ≡ true → jumpspace (at t l d) ≡ at t l d
unfolding jumpspace
jumpspace_word [] l d w = cc
jumpspace_word (c ∷ cs) l d w = rw (jump_word c cs l w) refl

pub jumpspace_space : (t : Bytes) (l d : ℕ) → jumpspace (at (b' ' ∷ t) l d) ≡ jumpspace (at t l d)
unfolding jumpspace jump
jumpspace_space t l d = refl

span-word :
    (valid : ℕ → Option Bool) (n : Bytes) (c : ℕ) (rest : Bytes)
    → AllValid valid n
    → valid c ≡ some false
    → span valid (n ++ c ∷ rest) ≡ some (n, c ∷ rest)
unfolding span
span-word valid [] c rest all stop = rw stop refl
span-word valid (x ∷ n) c rest (good, all) stop = rw (good, span-word valid n c rest all stop) refl

name_at-word :
    (x : ℕ) (n : Bytes) (c : ℕ) (rest : Bytes) (l d : ℕ)
    → AllValid valid_name (x ∷ n)
    → valid_name c ≡ some false
    → name_at (at (x ∷ (n ++ c ∷ rest)) l d) (x ∷ (n ++ c ∷ rest))
      ≡ ok (at (c ∷ rest) l d, found (x ∷ n))
unfolding name_at
name_at-word x n c rest l d all stop = rw (span-word valid_name (x ∷ n) c rest all stop) refl

pub find_valid_name-word :
    (n : Bytes) (c : ℕ) (rest : Bytes) (l d : ℕ)
    → IsName n
    → valid_name c ≡ some false
    → find_valid_name (at (n ++ c ∷ rest) l d) ≡ ok (at (c ∷ rest) l d, found n)
unfolding find_valid_name
find_valid_name-word [] c rest l d (w, all) stop = cc
find_valid_name-word (x ∷ n) c rest l d (w, all) stop =
    ap (λ (s : State). name_at s s.text) (jumpspace_word (x ∷ (n ++ c ∷ rest)) l d w)
    ∙ name_at-word x n c rest l d all stop

value_at-word :
    (x : ℕ) (v rest : Bytes) (l d : ℕ)
    → AllValid valid_value (x ∷ v)
    → value_at (at (x ∷ (v ++ b';' ∷ rest)) l d) (x ∷ (v ++ b';' ∷ rest))
      ≡ ok (at rest l d, found (x ∷ v))
unfolding value_at valid_value
value_at-word x v rest l d all =
    ap (λ o. lift o >>= (λ r. ok (value_end (at (x ∷ (v ++ b';' ∷ rest)) l d) r.0 r.1)))
      (span-word valid_value (x ∷ v) b';' rest all refl)
    ∙ ap (λ (s : State). ok (semicolon (x ∷ v) s s.text)) (jumpspace_word (b';' ∷ rest) l d refl)

pub find_valid_value-word :
    (v rest : Bytes) (l d : ℕ)
    → IsValue v
    → find_valid_value (at (b' ' ∷ (v ++ b';' ∷ rest)) l d) ≡ ok (at rest l d, found v)
unfolding find_valid_value
find_valid_value-word [] rest l d (w, all, ne) = cc
find_valid_value-word (x ∷ v) rest l d (w, all, ne) =
    ap (λ (s : State). value_at s s.text)
      (jumpspace_space (x ∷ (v ++ b';' ∷ rest)) l d ∙ jumpspace_word (x ∷ (v ++ b';' ∷ rest)) l d w)
    ∙ value_at-word x v rest l d all

array_value_at-word :
    (x : ℕ) (v : Bytes) (c : ℕ) (rest : Bytes) (l d : ℕ)
    → AllValid valid_value (x ∷ v)
    → valid_value c ≡ some false
    → starts_word (c ∷ rest) ≡ true
    → array_value_at (at (x ∷ (v ++ c ∷ rest)) l d) (x ∷ (v ++ c ∷ rest))
      ≡ ok (at (c ∷ rest) l d, found (x ∷ v))
unfolding array_value_at
array_value_at-word x v c rest l d all stop w =
    ap (λ o. lift o >>= (λ r. ok (array_value_end (at (x ∷ (v ++ c ∷ rest)) l d) r.0 r.1)))
      (span-word valid_value (x ∷ v) c rest all stop)
    ∙ ap (λ (s : State). ok (s, found (x ∷ v))) (jumpspace_word (c ∷ rest) l d w)

pub find_valid_array_value-word :
    (v : Bytes) (c : ℕ) (rest : Bytes) (l d : ℕ)
    → IsValue v
    → valid_value c ≡ some false
    → starts_word (c ∷ rest) ≡ true
    → find_valid_array_value (at (v ++ c ∷ rest) l d) ≡ ok (at (c ∷ rest) l d, found v)
unfolding find_valid_array_value
find_valid_array_value-word [] c rest l d (w, all, ne) stop w' = cc
find_valid_array_value-word (x ∷ v) c rest l d (w, all, ne) stop w' =
    ap (λ (s : State). array_value_at s s.text) (jumpspace_word (x ∷ (v ++ c ∷ rest)) l d w)
    ∙ array_value_at-word x v c rest l d all stop w'
