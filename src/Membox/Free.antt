-- ===== src/Membox/Free.antt =====
-- `box_alloc` and `box_free` of src/mem_pool/p_membox.h one after the other.
use record_lib.Base.{
  ℕ, zero, suc, ◌+◌, ◌<◌, ◌≡◌, refl, sym, ap, ◌∙◌, true, false, some, List, [], ◌∷◌, arith, ◌==◌,
  u32_mod, length, length-set, get_elem?, set, get_elem?-set_self, Returns, returns, ◌>>=◌,
  returned,
}
use record_lib.Membox.{
  Memblock, Mempool, Membox, claim, unclaim, free_at, mempool_alloc, box_alloc, box_free, block_at,
  data_of,
}
use record_lib.Membox.Inv.{IsPool, claim-IsPool, unclaim-IsPool}
use record_lib.Membox.Alloc.{mempool_alloc-Claimed}
use record_lib.Membox.Layout.{block_at-data_of}

-- Which blocks are in use.
abbrev pub marks : List Memblock → List ℕ
marks [] = []
marks (b ∷ bs) = b.seq ∷ marks bs

marks-set_twice :
    (bs : List Memblock) (i : ℕ) (b c d : Memblock)
    → get_elem? bs i ≡ some b
    → d.seq ≡ b.seq
    → marks (set (set bs i c) i d) ≡ marks bs
marks-set_twice [] i b c d at same = refl
marks-set_twice (x ∷ bs) zero b c d at same =
    let e : x ≡ b = cc at in ap (λ k. k ∷ marks bs) (same ∙ sym (ap (λ y. y.seq) e))
marks-set_twice (x ∷ bs) (suc i) b c d at same =
    ap (λ l. x.seq ∷ l) (marks-set_twice bs i b c d at same)

index_in {ℓ} : {A : Type ℓ} (xs : List A) (i : ℕ) {x : A} → get_elem? xs i ≡ some x → i < length xs
index_in [] i e = cc
index_in (x ∷ xs) zero e = omega arith
index_in (x ∷ xs) (suc i) e = omega (arith, index_in xs i e)

-- The box has a sound pool with the marks of another.
pub record Restored (p : Mempool) (m : Membox) : Type 0 where
  pub pool : Mempool
  pub is : m.pool ≡ some pool
  pub sound : IsPool pool
  pub count : pool.free_num ≡ p.free_num
  pub same : marks pool.blocks ≡ marks p.blocks

module _ (p : Mempool) (m : Membox) (i : ℕ) (b : Memblock)
    (at : get_elem? p.blocks i ≡ some b) where
  free_at_used :
      b.seq ≡ 1
      → b.mp ≡ p.addr
      → free_at p i m ≡ some (true, record m { pool = some (unclaim p i b) })
  unfolding free_at
  free_at_used used own =
      let e₁ : (b.seq == 1) ≡ true = ground arith in
      let e₂ : (b.mp == p.addr) ≡ true = ground arith in rw (at, e₁, e₂)

  free_at_free : b.seq ≡ 0 → free_at p i m ≡ some (false, m)
  unfolding free_at
  free_at_free free = let e : (b.seq == 1) ≡ false = ground arith in rw (at, e)

box_free-free_at :
    (size_t addr : ℕ) (p : Mempool) (m : Membox) (i : ℕ)
    → m.pool ≡ some p
    → block_at size_t p addr ≡ some i
    → box_free size_t addr m ≡ free_at p i m
unfolding box_free
box_free-free_at size_t addr p m i is here =
    ap (λ o. o >>= λ p'. block_at size_t p' addr >>= λ i'. free_at p' i' m) is
    ∙ ap (λ o. o >>= λ i'. free_at p i' m) here

module _ (size_t : ℕ) (fits : size_t + 100 < u32_mod) {p : Mempool} (sound : IsPool p) where
  -- The first `box_free` of a block that was just handed out, and the second.
  free_claimed :
      (m : Membox) (i : ℕ) (b : Memblock)
      → get_elem? p.blocks i ≡ some b
      → b.seq ≡ 0
      → m.pool ≡ some (claim p i)
      → Returns
          (λ (was_used, m').
            (was_used ≡ true)
            × Restored p m'
            × (box_free size_t (data_of size_t (claim p i) i) m' ≡ some (false, m')))
          (box_free size_t (data_of size_t (claim p i) i) m)
  unfolding claim unclaim
  free_claimed m i b at free is =
      let used : Memblock = record { seq = 1; mp = p.addr } in
      let unused : Memblock = record { seq = 0; mp = p.addr } in
      let addr = data_of size_t (claim p i) i in
      let q = unclaim (claim p i) i used in
      let m' : Membox = record m { pool = some q } in
      let (sound₁, less) = claim-IsPool sound i b at free in
      let bound = index_in p.blocks i at in
      let at₁ = get_elem?-set_self p.blocks i used bound in
      let (sound₂, more) = unclaim-IsPool sound₁ i used at₁ refl in
      let at₂ =
        get_elem?-set_self (set p.blocks i used) i unused
          (omega (arith, bound, length-set p.blocks i used)) in
      let first =
        box_free-free_at size_t addr (claim p i) m i is
          (block_at-data_of size_t (claim p i) i i fits).0
        ∙ free_at_used (claim p i) m i used at₁ refl refl in
      let second =
        box_free-free_at size_t addr q m' i refl (block_at-data_of size_t q i i fits).0
        ∙ free_at_free q m' i unused at₂ refl in
      rw first (
        returns (
          refl,
          record {
            pool = q;
            is = refl;
            sound = sound₂;
            count = omega (arith, less, more);
            same = marks-set_twice p.blocks i b used unused at (sym free);
          },
          second,
        ))

  -- For a small enough object type and a well-formed pool with a free block, box_alloc gives an
  -- address; box_free of it finds the block in use and restores the free count and the used mark
  -- of every block; and a second box_free of the address changes nothing and reports a block that
  -- is not in use.
  pub box_free-box_alloc :
      (m : Membox)
      → 0 < p.free_num
      → Returns
          (λ (got, m').
            (addr : ℕ) × (got ≡ some addr)
            × Returns
                (λ (was_used, m'').
                  (was_used ≡ true)
                  × Restored p m''
                  × (box_free size_t addr m'' ≡ some (false, m'')))
                (box_free size_t addr m'))
          (box_alloc size_t (record m { pool = some p }))
  unfolding box_alloc
  box_free-box_alloc m pos =
      let (out, e, (c, pool, less)) = returned (mempool_alloc-Claimed sound pos) in
      let e' : mempool_alloc p ≡ some (some c.index, claim p c.index) = cc (e, c.found, c.pool) in
      rw e' (
        returns (
          data_of size_t (claim p c.index) c.index,
          refl,
          free_claimed (record m { pool = some (claim p c.index) }) c.index c.block c.at c.free
              refl,
        ))
