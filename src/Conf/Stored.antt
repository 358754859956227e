-- ===== src/Conf/Stored.antt =====
-- The names and values of src/conf/pconf.cpp in the buffers of a node, where `rc_strncpy` of
-- src/string/p_string.cpp puts them.
use mathlib.Core.Path.{subst}
use record_lib.Base.{
  ℕ, ◌-◌, ◌<◌, ◌≡◌, refl, ap, some, List, [], ◌∷◌, ◌++◌, arith, length, length-replicate, replicate,
  take, Returns,
}
use record_lib.Conf.Parser.{stored_name, stored_value}
use record_lib.Strings.{rc_strncpy}
use record_lib.Strings.Copy.{c_string, NoNul, rc_strncpy-c_string}

append_assoc : (n more tail : List ℕ) → (n ++ more) ++ tail ≡ n ++ (more ++ tail)
append_assoc [] more tail = refl
append_assoc (c ∷ n) more tail = ap (λ t. c ∷ t) (append_assoc n more tail)

take-length : (n more : List ℕ) → take (length n) (n ++ more) ≡ n
take-length [] more = refl
take-length (c ∷ n) more = ap (λ t. c ∷ t) (take-length n more)

-- A word of the text in a cleared buffer.
copied :
    (size : ℕ) (n more tail : List ℕ)
    → 0 < size
    → NoNul (n ++ more)
    → Returns
        (λ d. c_string d ≡ some (take (size - 1) n))
        (rc_strncpy (replicate size 0) size (n ++ (more ++ 0 ∷ tail)) (length n))
copied size n more tail pos clean =
    subst
      (λ src.
        Returns (λ d. c_string d ≡ some (take (size - 1) n))
          (rc_strncpy (replicate size 0) size src (length n)))
      (append_assoc n more (0 ∷ tail))
      (subst
        (λ word.
          Returns (λ d. c_string d ≡ some (take (size - 1) word))
            (rc_strncpy (replicate size 0) size ((n ++ more) ++ 0 ∷ tail) (length n)))
        (take-length n more)
        (rc_strncpy-c_string (replicate size 0) (n ++ more) tail size (length n) clean pos
          (omega (arith, length-replicate {A = ℕ} size 0))))

-- For a word in a text without NUL bytes, which a NUL follows: rc_strncpy of the word to a cleared
-- buffer of 64 bytes leaves there the string that the model keeps as a node's name, and to a
-- cleared buffer of 128 bytes the string that it keeps as a node's value.
pub rc_strncpy-stored :
    (n more tail : List ℕ)
    → NoNul (n ++ more)
    → Returns
        (λ d. c_string d ≡ some (stored_name n))
        (rc_strncpy (replicate 64 0) 64 (n ++ (more ++ 0 ∷ tail)) (length n))
      × Returns
          (λ d. c_string d ≡ some (stored_value n))
          (rc_strncpy (replicate 128 0) 128 (n ++ (more ++ 0 ∷ tail)) (length n))
rc_strncpy-stored n more tail clean =
    (copied 64 n more tail (omega arith) clean, copied 128 n more tail (omega arith) clean)
