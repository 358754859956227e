-- ===== src/Strings/Digits.antt =====
-- `p_atoof` of src/string/p_string.cpp reads decimal numbers.
use record_lib.Base.{
  ℕ, suc, ◌+◌, ◌-◌, ◌*◌, ◌^◌, ◌<◌, ◌≤◌, ◌≡◌, ◌∙◌, refl, sym, ap, ◌||◌, true, false, none, some,
  List, [], ◌∷◌, ◌++◌, ltb, length, arith,
}
use record_lib.Strings.{atoof_loop, p_atoof}

abbrev pub AllDigits : List ℕ → Type 0
AllDigits [] = Unit
AllDigits (c ∷ cs) = (48 ≤ c) × (c ≤ 57) × AllDigits cs

-- The number that digits denote, behind a number that was read already.
abbrev pub decimal : ℕ → List ℕ → ℕ
decimal v [] = v
decimal v (c ∷ cs) = decimal (v * 10 + (c - 48)) cs

decimal_grows : (v : ℕ) (cs : List ℕ) → v ≤ decimal v cs
decimal_grows v [] = omega arith
decimal_grows v (c ∷ cs) = let r = decimal_grows (v * 10 + (c - 48)) cs in omega arith

-- The loop passes over digits.
atoof_loop-digits :
    (cs rest : List ℕ) (n v : ℕ)
    → AllDigits cs
    → decimal v cs < 2 ^ 31
    → atoof_loop (cs ++ rest) (length cs + n) v ≡ atoof_loop rest n (decimal v cs)
unfolding atoof_loop
atoof_loop-digits [] rest n v ds small = let e : 0 + n ≡ n = omega arith in rw e refl
atoof_loop-digits (c ∷ cs) rest n v (low, high, ds) small =
    let next = v * 10 + (c - 48) in
    let e : suc (length cs) + n ≡ suc (length cs + n) = omega arith in
    let is_digit : (ltb c 48 || ltb 57 c) ≡ false = ground arith in
    let fits : ltb next (2 ^ 31) ≡ true = let r = decimal_grows next cs in ground arith in
    rw (e, is_digit, fits) (atoof_loop-digits cs rest n next ds small)

-- p_atoof over a positive number of bytes that are all decimal digits returns the number that they
-- denote, whatever follows them, when that is below 2^31.
pub p_atoof-decimal :
    (c : ℕ) (cs rest : List ℕ)
    → AllDigits (c ∷ cs)
    → decimal 0 (c ∷ cs) < 2 ^ 31
    → p_atoof ((c ∷ cs) ++ rest) (length (c ∷ cs)) ≡ some (some (decimal 0 (c ∷ cs)))
unfolding p_atoof
p_atoof-decimal c cs rest ds small =
    let e : length (c ∷ cs) + 0 ≡ length (c ∷ cs) = omega arith in
    ap (λ n. atoof_loop ((c ∷ cs) ++ rest) n 0) (sym e)
    ∙ atoof_loop-digits (c ∷ cs) rest 0 0 ds small
    ∙ unfold atoof_loop in refl

-- p_atoof returns -1 when, among the bytes that it is given, a byte that is no digit follows
-- digits that denote a number below 2^31.
pub p_atoof_other :
    (cs : List ℕ) (c : ℕ) (rest : List ℕ) (n : ℕ)
    → AllDigits cs
    → decimal 0 cs < 2 ^ 31
    → (ltb c 48 || ltb 57 c) ≡ true
    → p_atoof (cs ++ c ∷ rest) (length cs + suc n) ≡ some none
unfolding p_atoof
p_atoof_other cs c rest n ds small other =
    let e : length cs + suc n ≡ suc (length cs + n) = omega arith in
    let at_c : atoof_loop (c ∷ rest) (suc n) (decimal 0 cs) ≡ some none =
      unfold atoof_loop in rw other refl in
    ap (p_atoof (cs ++ c ∷ rest)) e
    ∙ ap (λ k. atoof_loop (cs ++ c ∷ rest) k 0) (sym e)
    ∙ atoof_loop-digits cs (c ∷ rest) (suc n) 0 ds small
    ∙ at_c
