-- ===== src/Conf/Yields.antt =====
-- The outcomes that are neither a fault nor a lack of fuel, for src/conf/pconf.cpp.
use record_lib.Base.{
  ℕ, zero, suc, ◌+◌, ◌≤◌, ◌<◌, ◌≡◌, refl, Bool, true, false, not, ◌&&◌, ◌||◌, Option, some, none,
  List, [], ◌∷◌, ◌==◌, arith, length, get_elem?, if◌then◌else◌, inl, inr, Bool-cases,
}
use record_lib.Conf.{State, at, Outcome, ok, failed, ◌>>=◌, lift}
use record_lib.Conf.Chars.{
  valid_name, valid_value, is_space, jump, span, pushed, name_table, value_table,
}
use record_lib.Conf.Scan.{jumpspace}
use record_lib.Conf.Parser.{skip_one}

-- A result that satisfies `P`, or the parser's NULL.
pub data Yields {A : Type 0} (P : A → Type 0) : Outcome A → Type 0 where
  yields : {a : A} → P a → Yields P (ok a)
  refused : Yields P failed

module _ {A : Type 0} {P : A → Type 0} where
  pub bind :
      {B : Type 0} {Q : B → Type 0} {m : Outcome A} {f : A → Outcome B}
      → Yields P m
      → ((a : A) → P a → Yields Q (f a))
      → Yields Q (m >>= f)
  bind (yields p) next = next _ p
  bind refused next = refused

  pub mono : {Q : A → Type 0} {m : Outcome A} → Yields P m → ((a : A) → P a → Q a) → Yields Q m
  mono (yields p) weaken = yields (weaken _ p)
  mono refused weaken = refused

  pub either :
      (b : Bool) {x y : Outcome A} → Yields P x → Yields P y → Yields P (if b then x else y)
  either true px py = px
  either false px py = py

-- The bytes for which the tables of characters have an entry.
abbrev pub AllAscii : List ℕ → Type 0
AllAscii [] = Unit
AllAscii (c ∷ cs) = (c < 128) × AllAscii cs

-- A position not before the one that has `n` bytes left.
abbrev pub Within : ℕ → State → Type 0
Within n s = (length s.text ≤ n) × AllAscii s.text

get_elem?-within :
    {A : Type 0} (xs : List A) (i : ℕ) → i < length xs → (a : A) × (get_elem? xs i ≡ some a)
get_elem?-within [] i h = absurd (omega arith)
get_elem?-within (x ∷ xs) zero h = (x, refl)
get_elem?-within (x ∷ xs) (suc i) h = get_elem?-within xs i (omega arith)

abbrev Decides : (ℕ → Option Bool) → Type 0
Decides valid = (c : ℕ) → c < 128 → (b : Bool) × (valid c ≡ some b)

pub valid_name-Decides : Decides valid_name
unfolding valid_name
valid_name-Decides c h = let (a, e) = get_elem?-within name_table c h in ((a == 1), rw e refl)

pub valid_value-Decides : Decides valid_value
unfolding valid_value
valid_value-Decides c h = let (a, e) = get_elem?-within value_table c h in ((a == 1), rw e refl)

-- The part that was passed over and the rest make up the text.
abbrev pub Split : List ℕ → List ℕ × List ℕ → Type 0
Split t r = (length r.0 + length r.1 ≡ length t) × AllAscii r.1

span_passed :
    (c : ℕ) (cs : List ℕ) (o : Option (List ℕ × List ℕ))
    → Yields (Split cs) (lift o)
    → Yields (Split (c ∷ cs)) (lift (pushed c o))
span_passed c cs none rest = elim rest [ ]
span_passed c cs (some (passed, left)) (yields (e, ascii)) = yields (omega (arith, e), ascii)

span-step :
    (valid : ℕ → Option Bool) (c : ℕ) (cs : List ℕ) (b : Bool)
    → AllAscii (c ∷ cs)
    → valid c ≡ some b
    → Yields (Split cs) (lift (span valid cs))
    → Yields (Split (c ∷ cs)) (lift (span valid (c ∷ cs)))
unfolding span
span-step valid c cs true ascii e rest = rw e (span_passed c cs (span valid cs) rest)
span-step valid c cs false ascii e rest = rw e (yields (omega arith, ascii))

pub span-Split :
    (valid : ℕ → Option Bool) (t : List ℕ)
    → Decides valid
    → AllAscii t
    → Yields (Split t) (lift (span valid t))
unfolding span
span-Split valid [] dec ascii = yields (omega arith, ascii)
span-Split valid (c ∷ cs) dec (small, ascii) =
    let (b, e) = dec c small in
    span-step valid c cs b (small, ascii) e (span-Split valid cs dec ascii)

jump_lem :
    (in_comment : Bool) (t : List ℕ) (l : ℕ)
    → AllAscii t
    → (length (jump in_comment t l).0 ≤ length t) × AllAscii (jump in_comment t l).0
unfolding jump
jump_lem in_comment [] l ascii = (omega arith, ascii)
jump_lem in_comment (c ∷ cs) l (small, ascii) =
    let (short, rest) =
      jump_lem (not (c == b'\n') && (in_comment || c == b'#')) cs (if c == b'\n' then l + 1 else l)
        ascii in
    elim (Bool-cases (in_comment || is_space c || c == b'#')) [
      | inl e ↦ rw e (omega arith, rest)
      | inr e ↦ rw e (omega arith, (small, ascii))
    ]

pub jumpspace-Within : (s : State) → AllAscii s.text → Within (length s.text) (jumpspace s)
unfolding jumpspace
jumpspace-Within s ascii = jump_lem false s.text s.linenum ascii

skip_one-at : (t : List ℕ) (l d : ℕ) → AllAscii t → Within (length t) (skip_one (at t l d))
skip_one-at [] l d ascii = (omega arith, ascii)
skip_one-at (c ∷ cs) l d (small, ascii) = (omega arith, ascii)

pub skip_one-Within : (s : State) → AllAscii s.text → Within (length s.text) (skip_one s)
skip_one-Within s ascii = skip_one-at s.text s.linenum s.level ascii
