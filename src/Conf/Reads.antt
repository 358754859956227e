-- ===== src/Conf/Reads.antt =====
-- What the scanning functions of src/conf/pconf.cpp leave to read.
use mathlib.Core.Path.{subst}
use record_lib.Base.{
  ℕ, ◌≤◌, ◌<◌, ◌≡◌, true, List, [], ◌∷◌, ◌==◌, arith, length, inl, inr, Bool-cases, sym,
}
use record_lib.Conf.{State, at}
use record_lib.Conf.Chars.{valid_name, valid_value}
use record_lib.Conf.Scan.{
  jumpspace, Found, unset, missing, found, found_of, name_at, find_valid_name, value_at, value_end,
  semicolon, find_valid_value, array_value_at, array_value_end, find_valid_array_value,
}
use record_lib.Conf.Text.{starts_word}
use record_lib.Conf.Scanned.{jumpspace_word}
use record_lib.Conf.Yields.{
  Yields, yields, bind, mono, AllAscii, Within, valid_name-Decides, valid_value-Decides, Split,
  span-Split, jumpspace-Within,
}

-- A word was read, and `n` bytes were left before it; or none is there.
abbrev pub Read : ℕ → State × Found → Type 0
Read n (s, found v) = (length s.text < n) × AllAscii s.text
Read n (s, missing) = Unit
Read n (s, unset) = Within n s

-- The same, and the pointer was written.
abbrev pub Written : ℕ → State × Found → Type 0
Written n (s, found v) = (length s.text < n) × AllAscii s.text
Written n (s, missing) = Unit
Written n (s, unset) = ⊥

pub Read-weaken : (n m : ℕ) (r : State × Found) → n ≤ m → Read n r → Read m r
Read-weaken n m (s, found v) le (short, ascii) = (omega arith, ascii)
Read-weaken n m (s, missing) le h = h
Read-weaken n m (s, unset) le (short, ascii) = (omega arith, ascii)

Written-Read : (n : ℕ) (r : State × Found) → Written n r → Read n r
Written-Read n (s, found v) h = h
Written-Read n (s, missing) h = h
Written-Read n (s, unset) h = absurd h

found_of-Written :
    (t name rest : List ℕ) (l d : ℕ)
    → Split t (name, rest)
    → Written (length t) (at rest l d, found_of name)
found_of-Written t [] rest l d h = tt
found_of-Written t (c ∷ name) rest l d (e, ascii) = (omega arith, ascii)

name_at-Written :
    (c : ℕ) (cs : List ℕ) (l d : ℕ)
    → AllAscii (c ∷ cs)
    → Yields (Written (length (c ∷ cs))) (name_at (at (c ∷ cs) l d) (c ∷ cs))
unfolding name_at
name_at-Written c cs l d ascii =
    bind (span-Split valid_name (c ∷ cs) valid_name-Decides ascii)
      (λ r h. yields (found_of-Written (c ∷ cs) r.0 r.1 l d h))

name_at-Read : (t : List ℕ) (l d : ℕ) → AllAscii t → Yields (Read (length t)) (name_at (at t l d) t)
unfolding name_at
name_at-Read [] l d ascii = yields (omega arith, ascii)
name_at-Read (c ∷ cs) l d ascii =
    mono (name_at-Written c cs l d ascii) (λ r h. Written-Read (length (c ∷ cs)) r h)

pub find_valid_name-Read :
    (s : State) → AllAscii s.text → Yields (Read (length s.text)) (find_valid_name s)
unfolding find_valid_name
find_valid_name-Read s ascii =
    let (short, ascii') = jumpspace-Within s ascii in
    mono (name_at-Read (jumpspace s).text (jumpspace s).linenum (jumpspace s).level ascii')
      (λ r h. Read-weaken (length (jumpspace s).text) (length s.text) r short h)

pub find_valid_name-Written :
    (t : List ℕ) (l d : ℕ)
    → starts_word t ≡ true
    → AllAscii t
    → Yields (Written (length t)) (find_valid_name (at t l d))
unfolding find_valid_name
find_valid_name-Written [] l d w ascii = cc
find_valid_name-Written (c ∷ cs) l d w ascii =
    subst (λ (s : State). Yields (Written (length (c ∷ cs))) (name_at s s.text))
      (sym (jumpspace_word (c ∷ cs) l d w)) (name_at-Written c cs l d ascii)

semicolon-Read :
    (v t : List ℕ) (n l d : ℕ) → AllAscii t → length t ≤ n → Read n (semicolon v (at t l d) t)
unfolding semicolon
semicolon-Read v [] n l d ascii le = tt
semicolon-Read v (c ∷ cs) n l d (small, ascii) le = elim (Bool-cases (c == b';')) [
  | inl e ↦ rw e (omega arith, ascii)
  | inr e ↦ rw e tt
]

value_end-Read :
    (t value rest : List ℕ) (s : State)
    → Split t (value, rest)
    → Read (length t) (value_end s value rest)
unfolding value_end
value_end-Read t [] rest s h = tt
value_end-Read t (c ∷ v) rest s (e, ascii) =
    let after = jumpspace (record s { text = rest }) in
    let (short, ascii') = jumpspace-Within (record s { text = rest }) ascii in
    semicolon-Read (c ∷ v) after.text (length t) after.linenum after.level ascii' (omega arith)

value_at-Read : (s : State) (t : List ℕ) → AllAscii t → Yields (Read (length t)) (value_at s t)
unfolding value_at
value_at-Read s [] ascii = yields tt
value_at-Read s (c ∷ cs) ascii =
    bind (span-Split valid_value (c ∷ cs) valid_value-Decides ascii)
      (λ r h. yields (value_end-Read (c ∷ cs) r.0 r.1 s h))

pub find_valid_value-Read :
    (s : State) → AllAscii s.text → Yields (Read (length s.text)) (find_valid_value s)
unfolding find_valid_value
find_valid_value-Read s ascii =
    let (short, ascii') = jumpspace-Within s ascii in
    mono (value_at-Read (jumpspace s) (jumpspace s).text ascii')
      (λ r h. Read-weaken (length (jumpspace s).text) (length s.text) r short h)

array_value_end-Read :
    (t value rest : List ℕ) (s : State)
    → Split t (value, rest)
    → Read (length t) (array_value_end s value rest)
unfolding array_value_end
array_value_end-Read t [] rest s h = tt
array_value_end-Read t (c ∷ v) rest s (e, ascii) =
    let (short, ascii') = jumpspace-Within (record s { text = rest }) ascii in (omega arith, ascii')

array_value_at-Read :
    (s : State) (t : List ℕ) → AllAscii t → Yields (Read (length t)) (array_value_at s t)
unfolding array_value_at
array_value_at-Read s [] ascii = yields tt
array_value_at-Read s (c ∷ cs) ascii =
    bind (span-Split valid_value (c ∷ cs) valid_value-Decides ascii)
      (λ r h. yields (array_value_end-Read (c ∷ cs) r.0 r.1 s h))

pub find_valid_array_value-Read :
    (s : State) → AllAscii s.text → Yields (Read (length s.text)) (find_valid_array_value s)
unfolding find_valid_array_value
find_valid_array_value-Read s ascii =
    let (short, ascii') = jumpspace-Within s ascii in
    mono (array_value_at-Read (jumpspace s) (jumpspace s).text ascii')
      (λ r h. Read-weaken (length (jumpspace s).text) (length s.text) r short h)
