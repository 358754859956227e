-- ===== src/Membox/Alloc.antt =====
-- `mempool_alloc` of src/mem_pool/p_membox.h finds a free block exactly when there is one.
use native.Mathlib.Nat.{mod-lt, mod-eq_of_lt, add-mod_right}
use record_lib.Base.{
  ℕ, zero, suc, ◌+◌, ◌-◌, ◌%◌, ◌<◌, ◌≤◌, ◌≡◌, refl, sym, ap, ◌∙◌, inl, inr, false, none, some, List,
  arith, [], ◌∷◌, ltb, ◌==◌, Bool-cases, length, get_elem?, Returns, returns, mono, Option,
}
use record_lib.Membox.{Memblock, Mempool, claim, alloc_loop, mempool_alloc}
use record_lib.Membox.Inv.{IsPool, free_count, free_block, claim-IsPool}

-- A block was found and claimed, and it was free before.
pub record Claimed (p : Mempool) (out : Option ℕ × Mempool) : Type 0 where
  pub index : ℕ
  pub block : Memblock
  pub found : out.0 ≡ some index
  pub at : get_elem? p.blocks index ≡ some block
  pub free : block.seq ≡ 0
  pub pool : out.1 ≡ claim p index

get_elem?-in {ℓ} :
    {A : Type ℓ} (xs : List A) (i : ℕ) → i < length xs → (x : A) × (get_elem? xs i ≡ some x)
get_elem?-in [] i h = absurd (omega arith)
get_elem?-in (x ∷ xs) zero h = (x, refl)
get_elem?-in (x ∷ xs) (suc i) h = get_elem?-in xs i (omega arith)

-- From any start the indices go once round the array.
round_trip : (s n k : ℕ) → s ≤ n → k < n → (j : ℕ) × (j < n) × ((s + j) % n ≡ k)
round_trip s n k le lt = elim (Bool-cases (ltb k s)) [
  | inl e ↦
      let h : k < s = ground arith in
      (k + n - s, omega arith, ap (λ m. m % n) (omega arith) ∙ add-mod_right k n ∙ mod-eq_of_lt lt)
  | inr e ↦
      let h : s ≤ k = ground arith in
      (k - s, omega arith, ap (λ m. m % n) (omega arith) ∙ mod-eq_of_lt lt)
]

-- A free block is not where a used one is.
later :
    (bs : List Memblock) (i j n : ℕ) (c b : Memblock)
    → get_elem? bs (i % n) ≡ some c
    → (c.seq == 0) ≡ false
    → get_elem? bs (j % n) ≡ some b
    → b.seq ≡ 0
    → i ≤ j
    → i < j
later bs i j n c b at_i used at_j free le = elim (Bool-cases (i == j)) [
  | inl e ↦
      let e' : i ≡ j = ground arith in
      let same : c ≡ b = cc (sym at_i ∙ ap (λ k. get_elem? bs (k % n)) e' ∙ at_j) in
      absurd (ground (arith, same))
  | inr e ↦ ground arith
]

module _ {p : Mempool} (is : IsPool p) (s : ℕ) where
  alloc_loop-Claimed :
      (k i j : ℕ) (b : Memblock)
      → i + k ≡ p.block_num
      → i ≤ j
      → j < p.block_num
      → get_elem? p.blocks ((s + j) % p.block_num) ≡ some b
      → b.seq ≡ 0
      → Returns (Claimed p) (alloc_loop k s i p)
  unfolding alloc_loop
  alloc_loop-Claimed zero i j b e le lt at free = absurd (omega arith)
  alloc_loop-Claimed (suc k) i j b e le lt at free =
      let here = (s + i) % p.block_num in
      let (c, at_here) =
        get_elem?-in p.blocks here
          (omega (arith, is.array, mod-lt (s + i) {m = p.block_num} (omega arith))) in
      rw at_here (elim (Bool-cases (c.seq == 0)) [
        | inl yes_free ↦ rw yes_free (
            returns (record {
              index = here;
              block = c;
              found = refl;
              at = at_here;
              free = ground arith;
              pool = refl;
            }))
        | inr used ↦ rw used (
            alloc_loop-Claimed k (i + 1) j b (omega arith)
              (omega (
                arith,
                later p.blocks (s + i) (s + j) p.block_num c b at_here used at free (omega arith),
              ))
              lt at free)
      ])

-- An allocation from a well-formed pool whose free count is not 0 succeeds: it claims a block that
-- was free, the pool stays well-formed, and the free count falls by one.
pub mempool_alloc-Claimed :
    {p : Mempool}
    → IsPool p
    → 0 < p.free_num
    → Returns
        (λ out. Claimed p out × IsPool out.1 × (p.free_num ≡ suc out.1.free_num))
        (mempool_alloc p)
unfolding mempool_alloc
mempool_alloc-Claimed {p} is pos =
    let (k, b, lt, at, free) = free_block p.blocks (omega (arith, is.counted)) in
    let some_free : (p.free_num == 0) ≡ false = ground arith in
    let s = p.block_num - p.free_num in
    let (j, lt_j, e) = round_trip s p.block_num k (omega arith) (omega (arith, is.array)) in
    rw some_free (
      mono
        (alloc_loop-Claimed is s p.block_num 0 j b (omega arith) (omega arith) lt_j
          (ap (get_elem? p.blocks) e ∙ at) free)
        λ out c.
          let (pool, less) = claim-IsPool is c.index c.block c.at c.free in
          (c, rw c.pool pool, rw c.pool less))

-- An allocation from a well-formed pool without a free block answers NULL and leaves the pool as
-- it was.
pub mempool_alloc_full :
    {p : Mempool} → IsPool p → free_count p.blocks ≡ 0 → mempool_alloc p ≡ some (none, p)
unfolding mempool_alloc
mempool_alloc_full is full = ground (arith, is.counted)
