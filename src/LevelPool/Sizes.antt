-- ===== src/LevelPool/Sizes.antt =====
-- The level that `pure_slab_pool::Alloc` of src/mem_pool/pure_slab_pool.cpp chooses for a length.
use native.Mathlib.Nat.{
  mod-le, div-eq_of_lt, div-mul-le_self, mul_comm, mul-add, le-div_iff_mul-le, mul-le-mul_right,
  one-le-pow, mod-eq_of_lt,
}
use record_lib.Base.{
  ℕ, zero, suc, ◌+◌, ◌-◌, ◌*◌, ◌/◌, ◌%◌, ◌^◌, ◌≤◌, ◌<◌, ◌≡◌, ◌==◌, refl, ap, ◌∙◌, false, leb, arith,
  inl, inr, Bool-cases, u32_mod,
}
use record_lib.LevelPool.{highest_bit, bsr, level_of, mbsize_of}
use record_lib.Slab.{sizeof_block}

highest_bit_le : (w n : ℕ) → 0 < n → 2 ^ highest_bit w n ≤ n
unfolding highest_bit
highest_bit_le zero n pos = omega arith
highest_bit_le (suc b) n pos = elim (Bool-cases (leb (2 ^ b) n)) [
  | inl e ↦ rw e (ground arith)
  | inr e ↦ rw e (highest_bit_le b n pos)
]

bsr_le : (n : ℕ) → 0 < n → 2 ^ bsr n ≤ n
unfolding bsr
bsr_le n pos = highest_bit_le 32 n pos

level_of_none : (m l : ℕ) → 0 < m → (l + sizeof_block - 1) / m ≡ 0 → level_of m l ≡ 0
unfolding level_of
level_of_none zero l pos e = absurd (omega arith)
level_of_none (suc m) l pos e = rw e refl

level_of-bsr :
    (m l : ℕ)
    → 0 < m
    → 0 < (l + sizeof_block - 1) / m
    → level_of m l ≡ bsr ((l + sizeof_block - 1) / m)
unfolding level_of
level_of-bsr zero l pos some = absurd (omega arith)
level_of-bsr (suc m) l pos some =
    let e : ((l + sizeof_block - 1) / suc m == 0) ≡ false = ground arith in rw e refl

-- A level's block, its head included, against the bytes that were asked for.
too_small : (a p q l : ℕ) → 1 ≤ p → p ≤ q → q * (a + 24) ≤ l + 23 → a * p + 24 < l + 24
too_small a p q l one le fit =
    let h : p * (a + 24) ≤ q * (a + 24) = mul-le-mul_right (a + 24) le in
    let e : p * (a + 24) ≡ a * p + 24 * p =
      mul-add p a 24
      ∙ (ap (λ t. t + p * 24) (mul_comm p a) ∙ ap (λ t. a * p + t) (mul_comm p 24)) in
    omega arith

-- For a rounded block size that leaves room for a block's head in 32 bits, and a length: when the
-- length is at most the block size, a block of the level that Alloc chooses holds its head and
-- that many bytes; when it is larger, a block of that level has fewer bytes than the head and the
-- length take.
pub level_of-mbsize :
    (alignedsize l : ℕ)
    → alignedsize + sizeof_block < 2 ^ 32
    → (l ≤ alignedsize
        → l + sizeof_block ≤ mbsize_of alignedsize (level_of (mbsize_of alignedsize 0) l))
      × (alignedsize < l
          → mbsize_of alignedsize (level_of (mbsize_of alignedsize 0) l) < l + sizeof_block)
level_of-mbsize a l small =
    let first : mbsize_of a 0 ≡ a + 24 =
      ap (λ t. (t + 24) % u32_mod) (omega arith) ∙ mod-eq_of_lt (omega arith) in
    rw first (
      (λ le.
          rw (level_of_none (a + 24) l (omega arith) (div-eq_of_lt (omega arith)), first)
            (omega arith)),
      (λ gt.
          let q = (l + sizeof_block - 1) / (a + 24) in
          let fit = div-mul-le_self (l + sizeof_block - 1) (a + 24) in
          let head : 0 < a + 24 = omega arith in
          let whole : 1 * (a + 24) ≤ l + sizeof_block - 1 = omega arith in
          let pos : 0 < q = (le-div_iff_mul-le head).1 whole in
          let small_block : a * 2 ^ bsr q + 24 < l + 24 =
            too_small a (2 ^ bsr q) q l (one-le-pow (bsr q) 2 (omega arith)) (bsr_le q pos)
              (omega (arith, fit)) in
          rw (level_of-bsr (a + 24) l (omega arith) pos)
            (omega (arith, mod-le (a * 2 ^ bsr q + sizeof_block) u32_mod, small_block))),
    )
