-- ===== src/Strings/Copy.antt =====
-- What `rc_strncpy` and `rn_strncpy` of src/string/p_string.cpp leave in the buffer.
use mathlib.Core.Option
use record_lib.Base.{
  ℕ, zero, suc, ◌-◌, ◌<◌, ◌≤◌, ◌==◌, ◌≡◌, ◌∙◌, refl, sym, ap, true, false, Option, none, some, List,
  [], ◌∷◌, ◌++◌, ltb, if◌then◌else◌, length, set, take, arith, Returns, returns, bind, inl, inr,
  Bool-cases,
}
use record_lib.Strings.{pad, strncpy, write_byte, rc_strncpy, rn_strncpy}

-- The string in a buffer: its bytes before the first NUL, if there is one.
abbrev pub c_string : List ℕ → Option (List ℕ)
c_string [] = none
c_string (c ∷ cs) = if c == 0 then some [] else Option.map (λ t. c ∷ t) (c_string cs)

abbrev pub NoNul : List ℕ → Type 0
NoNul [] = Unit
NoNul (c ∷ cs) = ((c == 0) ≡ false) × NoNul cs

pad-length :
    (n : ℕ) (dest : List ℕ) → n ≤ length dest → Returns (λ d. length d ≡ length dest) (pad n dest)
unfolding pad
pad-length zero dest room = returns refl
pad-length (suc n) [] room = absurd (omega arith)
pad-length (suc n) (x ∷ dest) room =
    bind (pad-length n dest (omega arith)) λ d e. returns (ap suc e)

-- A copy of `n` bytes that is ended by a NUL holds the first `n` bytes of the text.
abbrev Copied : List ℕ → ℕ → List ℕ → List ℕ → Type 0
Copied dest n text d = (length d ≡ length dest) × (c_string (set d n 0) ≡ some (take n text))

strncpy-Copied :
    (dest text tail : List ℕ) (n : ℕ)
    → NoNul text
    → n < length dest
    → Returns (Copied dest n text) (strncpy dest (text ++ 0 ∷ tail) n)
unfolding strncpy pad
strncpy-Copied [] text tail n clean room = absurd (omega arith)
strncpy-Copied (x ∷ dest) text tail zero clean room = returns (refl, refl)
strncpy-Copied (x ∷ dest) [] tail (suc n) clean room =
    bind (pad-length n dest (omega arith)) λ d e. returns (ap suc e, refl)
strncpy-Copied (x ∷ dest) (c ∷ text) tail (suc n) (no_nul, clean) room = rw no_nul (
    bind (strncpy-Copied dest text tail n clean (omega arith))
      λ d (e, s). returns (ap suc e, rw (no_nul, s) refl))

take-take : (a b : ℕ) (text : List ℕ) → a ≤ b → take b (take a text) ≡ take a text
take-take zero zero text le = refl
take-take zero (suc b) text le = refl
take-take (suc a) zero text le = absurd (omega arith)
take-take (suc a) (suc b) [] le = refl
take-take (suc a) (suc b) (x ∷ text) le = ap (λ t. x ∷ t) (take-take a b text (omega arith))

take_fewer : (a b : ℕ) (text : List ℕ) → a ≤ b → take a (take b text) ≡ take a text
take_fewer zero b text le = refl
take_fewer (suc a) zero text le = absurd (omega arith)
take_fewer (suc a) (suc b) [] le = refl
take_fewer (suc a) (suc b) (x ∷ text) le = ap (λ t. x ∷ t) (take_fewer a b text (omega arith))

write_byte-ok : (d : List ℕ) (i c : ℕ) → i < length d → write_byte d i c ≡ some (set d i c)
unfolding write_byte
write_byte-ok d i c room = let e : ltb i (length d) ≡ true = ground arith in rw e refl

-- For a source that holds a text ended by NUL and a buffer of at least d_l > 0 bytes, rc_strncpy
-- stays inside both arrays and leaves in the buffer a NUL-terminated string: the first s_l bytes
-- of the text, cut to d_l - 1.
pub rc_strncpy-c_string :
    (dest text tail : List ℕ) (d_l s_l : ℕ)
    → NoNul text
    → 0 < d_l
    → d_l ≤ length dest
    → Returns
        (λ d. c_string d ≡ some (take (d_l - 1) (take s_l text)))
        (rc_strncpy dest d_l (text ++ 0 ∷ tail) s_l)
unfolding rc_strncpy
rc_strncpy-c_string dest text tail zero s_l clean pos room = absurd (omega arith)
rc_strncpy-c_string dest text tail (suc m) s_l clean pos room =
    let last : suc m - 1 ≡ m = omega arith in
    elim (Bool-cases (ltb s_l m)) [
      | inl e ↦
          let le : s_l ≤ m = ground arith in
          rw (e, last)
            (bind (strncpy-Copied dest text tail s_l clean (omega arith)) λ d (same, s).
              rw (write_byte-ok d s_l 0 (omega arith))
                (returns (s ∙ ap some (sym (take-take s_l m text le)))))
      | inr e ↦
          let le : m ≤ s_l = ground arith in
          rw (e, last)
            (bind (strncpy-Copied dest text tail m clean (omega arith)) λ d (same, s).
              rw (write_byte-ok d m 0 (omega arith))
                (returns (s ∙ ap some (sym (take_fewer m s_l text le)))))
    ]

-- For a source that holds a text ended by NUL, a positive s_l and a buffer of at least d_l > 0
-- bytes, rn_strncpy stays inside both arrays, returns s_l - 1 when s_l < d_l - 1 and else d_l - 1,
-- and leaves in the buffer the first bytes of the text, as many as it returns, ended by NUL.
pub rn_strncpy-c_string :
    (dest text tail : List ℕ) (d_l s_l : ℕ)
    → NoNul text
    → 0 < d_l
    → 0 < s_l
    → d_l ≤ length dest
    → Returns
        (λ (n, d).
          (c_string d ≡ some (take n text))
          × (s_l < d_l - 1 → n ≡ s_l - 1)
          × (d_l - 1 ≤ s_l → n ≡ d_l - 1))
        (rn_strncpy dest d_l (text ++ 0 ∷ tail) s_l)
unfolding rn_strncpy
rn_strncpy-c_string dest text tail zero s_l clean pos some_text room = absurd (omega arith)
rn_strncpy-c_string dest text tail (suc m) zero clean pos some_text room = absurd (omega arith)
rn_strncpy-c_string dest text tail (suc m) (suc k) clean pos some_text room =
    elim (Bool-cases (ltb (suc k) m)) [
      | inl e ↦
          let less : suc k < m = ground arith in
          rw e (
            bind (strncpy-Copied dest text tail k clean (omega arith)) λ d (same, s).
              rw (write_byte-ok d k 0 (omega arith))
                (returns (s, λ _. omega arith, λ le. absurd (omega arith))))
      | inr e ↦
          let le : m ≤ suc k = ground arith in
          rw e (
            bind (strncpy-Copied dest text tail m clean (omega arith)) λ d (same, s).
              rw (write_byte-ok d m 0 (omega arith))
                (returns (s, λ less. absurd (omega arith), λ _. omega arith)))
    ]
