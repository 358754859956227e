-- ===== src/Base/Align.antt =====
-- The macros `pure_align_ptr` and `pure_align_u32`, which each file of src/mem_pool defines.
use Prim.Native.Nat.{ℕ, ◌+◌, ◌-◌, ◌*◌, ◌/◌, ◌%◌, ◌^◌, ◌≤◌, ◌<◌}
use native.Mathlib.Nat.{mod-add-div', mod-lt, mod-eq_of_lt, mul-mod_left}
use mathlib.Core.Path.{◌≡◌}
use native.Mathlib.Omega.{arith}

-- `(x + (a - 1)) & ~(a - 1)` in `w` bits. The alignments are powers of two, for which the mask
-- clears the remainder by `a`.
abbrev pub align : ℕ → ℕ → ℕ → ℕ
align w x a = (x + (a - 1)) % 2 ^ w / a * a

abbrev pub align_ptr : ℕ → ℕ → ℕ
align_ptr = align 64

abbrev pub align_u32 : ℕ → ℕ → ℕ
align_u32 = align 32

-- Without a wrap the result is the next multiple of `a`.
pub align_bounds :
    (w x a : ℕ)
    → 0 < a
    → x + (a - 1) < 2 ^ w
    → (x ≤ align w x a) × (align w x a < x + a) × (align w x a % a ≡ 0)
align_bounds w x a pos small =
    let e = mod-eq_of_lt small in
    let d = mod-add-div' (x + (a - 1)) a in
    let m = mod-lt (x + (a - 1)) pos in
    (rw e (omega arith), rw e (omega arith), mul-mod_left ((x + (a - 1)) % 2 ^ w / a) a)
