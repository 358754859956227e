-- ===== src/Strings.antt =====
-- The string helpers of src/string/p_string.cpp, over arrays of bytes. A buffer is the list of its
-- bytes; `none` is an access outside of a buffer, or a signed overflow. Lengths are not negative.
pub mod Copy
pub mod Digits
mod Tests
use record_lib.Base.{
  ℕ, zero, suc, ◌+◌, ◌-◌, ◌*◌, ◌^◌, Bool, true, false, ◌||◌, Option, none, some, List, [], ◌∷◌,
  ◌==◌, ltb, leb, if◌then◌else◌, ◌>>=◌, length, set,
}

-- `strncpy` of the C library: the bytes up to the first NUL, padded with NULs.
pub pad : ℕ → List ℕ → Option (List ℕ)
pad zero dest = some dest
pad (suc n) [] = none
pad (suc n) (d ∷ dest) = do rest ← pad n dest; some (0 ∷ rest)

pub strncpy : List ℕ → List ℕ → ℕ → Option (List ℕ)
unfolding pad
strncpy dest src zero = some dest
strncpy [] src (suc n) = none
strncpy (d ∷ dest) [] (suc n) = none
strncpy (d ∷ dest) (c ∷ src) (suc n) =
    if c == 0 then pad (suc n) (d ∷ dest) else do rest ← strncpy dest src n; some (c ∷ rest)

-- `dest[i] = c`
pub write_byte : List ℕ → ℕ → ℕ → Option (List ℕ)
write_byte dest i c = if ltb i (length dest) then some (set dest i c) else none

-- A buffer size of 0 makes the last index -1.
pub rc_strncpy : List ℕ → (d_l : ℕ) → List ℕ → (s_l : ℕ) → Option (List ℕ)
rc_strncpy dest zero src s_l = none
rc_strncpy dest (suc m) src s_l =
    if ltb s_l m
    then (do dest ← strncpy dest src s_l; write_byte dest s_l 0)
    else do dest ← strncpy dest src m; write_byte dest m 0

-- The result is the returned count and the buffer.
pub rn_strncpy : List ℕ → (d_l : ℕ) → List ℕ → (s_l : ℕ) → Option (ℕ × List ℕ)
rn_strncpy dest zero src s_l = none
rn_strncpy dest (suc m) src s_l =
    if ltb s_l m
    then (elim s_l [
      | zero ↦ none
      | suc k ↦ do dest ← strncpy dest src k; dest ← write_byte dest k 0; some (k, dest)
    ])
    else do dest ← strncpy dest src m; dest ← write_byte dest m 0; some (m, dest)

-- The `for` of `p_atoof`, over `n` bytes of the line. The inner `none` is the result -1.
pub atoof_loop : List ℕ → ℕ → ℕ → Option (Option ℕ)
atoof_loop line zero value = some (some value)
atoof_loop [] (suc n) value = none
atoof_loop (c ∷ line) (suc n) value =
    let next = value * 10 + (c - 48) in
    if ltb c 48 || ltb 57 c
    then some none
    else if ltb next (2 ^ 31)
    then atoof_loop line n next
    else none

-- Without an overflow the last test of the source, for a negative value, fails.
pub p_atoof : List ℕ → ℕ → Option (Option ℕ)
unfolding atoof_loop
p_atoof line zero = some none
p_atoof line (suc n) = atoof_loop line (suc n) 0
