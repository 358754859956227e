-- ===== src/Membox/Inv.antt =====
-- The invariant of a pool of src/mem_pool/p_membox.h: the count of free blocks is right.
use record_lib.Base.{
  ℕ, zero, suc, ◌+◌, ◌-◌, ◌%◌, ◌<◌, ◌≤◌, ◌≡◌, ◌≢◌, ◌⊎◌, refl, sym, ap, ◌∙◌, inl, inr, some, List,
  [], ◌∷◌, arith, ◌==◌, if◌then◌else◌, Bool-cases, u32_mod, length, get_elem?, set, replicate,
  length-set,
}
use record_lib.Membox.{Memblock, Mempool, claim, unclaim}

abbrev pub free_count : List Memblock → ℕ
free_count [] = 0
free_count (b ∷ bs) = if b.seq == 0 then suc (free_count bs) else free_count bs

-- A block is free, or it is used and names its pool.
abbrev pub BlockOk : ℕ → Memblock → Type 0
BlockOk addr b = (b.seq ≡ 0) ⊎ ((b.seq ≡ 1) × (b.mp ≡ addr))

abbrev pub BlocksOk : ℕ → List Memblock → Type 0
BlocksOk addr [] = Unit
BlocksOk addr (b ∷ bs) = BlockOk addr b × BlocksOk addr bs

pub record IsPool (p : Mempool) : Type 0 where
  pub array : p.block_num ≡ length p.blocks
  pub counted : p.free_num ≡ free_count p.blocks
  pub small : p.block_num < u32_mod
  pub marked : BlocksOk p.addr p.blocks

pub free_count-le-length : (bs : List Memblock) → free_count bs ≤ length bs
free_count-le-length [] = omega arith
free_count-le-length (b ∷ bs) = ground (arith, free_count-le-length bs)

pub free_count-replicate : (n : ℕ) → free_count (replicate n (record { seq = 0; mp = 0 })) ≡ n
free_count-replicate zero = refl
free_count-replicate (suc n) = ap suc (free_count-replicate n)

pub BlocksOk-replicate : (addr n : ℕ) → BlocksOk addr (replicate n (record { seq = 0; mp = 0 }))
BlocksOk-replicate addr zero = tt
BlocksOk-replicate addr (suc n) = (inl refl, BlocksOk-replicate addr n)

-- Some free block has an index.
pub free_block :
    (bs : List Memblock)
    → 0 < free_count bs
    → (i : ℕ) × (b : Memblock) × (i < length bs) × (get_elem? bs i ≡ some b) × (b.seq ≡ 0)
free_block [] pos = absurd (omega arith)
free_block (b ∷ bs) pos = elim (Bool-cases (b.seq == 0)) [
  | inl e ↦ (0, b, omega arith, refl, ground arith)
  | inr e ↦
      let (i, c, lt, at, free) = free_block bs (ground arith) in (suc i, c, omega arith, at, free)
]

pub free_count-set_used :
    (bs : List Memblock) (i : ℕ) (b c : Memblock)
    → get_elem? bs i ≡ some b
    → b.seq ≡ 0
    → c.seq ≢ 0
    → free_count bs ≡ suc (free_count (set bs i c))
free_count-set_used [] i b c at free used = cc
free_count-set_used (x ∷ bs) zero b c at free used = let e : x ≡ b = cc at in ground arith
free_count-set_used (x ∷ bs) (suc i) b c at free used =
    ground (arith, free_count-set_used bs i b c at free used)

pub free_count-set_free :
    (bs : List Memblock) (i : ℕ) (b c : Memblock)
    → get_elem? bs i ≡ some b
    → b.seq ≢ 0
    → c.seq ≡ 0
    → suc (free_count bs) ≡ free_count (set bs i c)
free_count-set_free [] i b c at used free = cc
free_count-set_free (x ∷ bs) zero b c at used free = let e : x ≡ b = cc at in ground arith
free_count-set_free (x ∷ bs) (suc i) b c at used free =
    ground (arith, free_count-set_free bs i b c at used free)

pub BlocksOk-set :
    (addr : ℕ) (bs : List Memblock) (i : ℕ) (c : Memblock)
    → BlocksOk addr bs
    → BlockOk addr c
    → BlocksOk addr (set bs i c)
BlocksOk-set addr [] i c ok new = tt
BlocksOk-set addr (b ∷ bs) zero c ok new = (new, ok.1)
BlocksOk-set addr (b ∷ bs) (suc i) c ok new = (ok.0, BlocksOk-set addr bs i c ok.1 new)

pub BlocksOk-at :
    (addr : ℕ) (bs : List Memblock) (i : ℕ) (b : Memblock)
    → BlocksOk addr bs
    → get_elem? bs i ≡ some b
    → BlockOk addr b
BlocksOk-at addr [] i b ok at = cc
BlocksOk-at addr (c ∷ bs) zero b ok at = let e : c ≡ b = cc at in rw (← e) ok.0
BlocksOk-at addr (c ∷ bs) (suc i) b ok at = BlocksOk-at addr bs i b ok.1 at

module _ {p : Mempool} (is : IsPool p) (i : ℕ) (b : Memblock)
    (at : get_elem? p.blocks i ≡ some b) where
  pub claim-IsPool : b.seq ≡ 0 → IsPool (claim p i) × (p.free_num ≡ suc (claim p i).free_num)
  unfolding claim
  claim-IsPool free =
      let new : Memblock = record { seq = 1; mp = p.addr } in
      let count = free_count-set_used p.blocks i b new at free (omega arith) in
      let bound = free_count-le-length p.blocks in
      let less : (p.free_num + u32_mod - 1) % u32_mod ≡ free_count (set p.blocks i new) =
        omega (arith, is.counted, is.small, is.array) in
      (
        record {
          array = is.array ∙ sym (length-set p.blocks i new);
          counted = less;
          small = is.small;
          marked = BlocksOk-set p.addr p.blocks i new is.marked (inr (refl, refl));
        },
        omega (arith, is.counted),
      )

  pub unclaim-IsPool :
      b.seq ≡ 1 → IsPool (unclaim p i b) × ((unclaim p i b).free_num ≡ suc p.free_num)
  unfolding unclaim
  unclaim-IsPool used =
      let new : Memblock = record b { seq = 0 } in
      let count = free_count-set_free p.blocks i b new at (omega arith) refl in
      let kept = length-set p.blocks i new in
      let bound = free_count-le-length (set p.blocks i new) in
      let more : (p.free_num + 1) % u32_mod ≡ free_count (set p.blocks i new) =
        omega (arith, is.counted, is.small, is.array) in
      (
        record {
          array = is.array ∙ sym kept;
          counted = more;
          small = is.small;
          marked = BlocksOk-set p.addr p.blocks i new is.marked (inl refl);
        },
        omega (arith, is.counted),
      )
