-- ===== src/Slab/Init.antt =====
-- `init_memblock` of src/mem_pool/pure_slab.cpp cuts a zone into free blocks.
use record_lib.Base.{
  ℕ, zero, suc, ◌+◌, ◌-◌, ◌*◌, ◌%◌, ◌<◌, ◌≤◌, ◌==◌, ◌∙◌, ◌≡◌, ◌≢◌, refl, ap, [], ◌∷◌, false, true,
  some, u32_mod, arith, ltb, length, Returns, returns, bind, mono, inl, inr, Bool-cases, eq_refl,
  ne_sym,
}
use record_lib.Links.{Ptr, null, node, Heap, modify, with_next}
use record_lib.Links.Seg.{Cells, has, first, Distinct, Seg, SameOutside, modify-ne}
use record_lib.Links.Writes.{load-ok, not_null, set_next-ok, modify-next_self}
use record_lib.Slab.{SlabPool, new_block, block_loop, chain_walk, init_blocks, sizeof_pool}
use record_lib.Slab.Inv.{IsPool}

-- `n` blocks of `ul` bytes side by side.
abbrev pub blocks : Ptr → ℕ → ℕ → Cells Ptr
blocks pos ul zero = []
blocks pos ul (suc n) = (pos, null) ∷ blocks (pos + ul) ul n

-- `n * ul`
abbrev pub span : ℕ → ℕ → ℕ
span ul zero = 0
span ul (suc n) = ul + span ul n

pub span-mul : (ul n : ℕ) → span ul n ≡ n * ul
span-mul ul zero = omega arith
span-mul ul (suc n) = grind (arith, span-mul ul n)

below_blocks : (a pos ul n : ℕ) → a < pos → has a (blocks pos ul n) ≡ false
below_blocks a pos ul zero small = refl
below_blocks a pos ul (suc n) small =
    let rest = below_blocks a (pos + ul) ul n (omega arith) in
    let ne : (a == pos) ≡ false = ground arith in rw ne rest

blocks-Distinct : (pos ul n : ℕ) → 0 < ul → Distinct (blocks pos ul n)
blocks-Distinct pos ul zero big = tt
blocks-Distinct pos ul (suc n) big =
    (below_blocks pos (pos + ul) ul n (omega arith), blocks-Distinct (pos + ul) ul n big)

module _ (ul limit : ℕ) (big : 0 < ul) (small : limit + ul < u32_mod) where
  -- What the loop adds behind the block `pre`.
  record Chained (pre q pos offs : ℕ) (h g : Heap Ptr) : Type 0 where
    number : ℕ
    linked : g pre ≡ some (node null q (first (blocks pos ul number) null))
    chain : Seg g pre null (blocks pos ul number)
    fits : offs + span ul number ≤ limit + ul
    most : limit < offs + span ul number
    same : (a : Ptr) → (a == pre) ≡ false → has a (blocks pos ul number) ≡ false → g a ≡ h a

  behind :
      (pre q pos offs : ℕ) (h g : Heap Ptr)
      → pre ≢ null
      → pre < pos
      → h pre ≡ some (node null q null)
      → offs ≤ limit
      → Chained pos pre (pos + ul) (offs + ul) (modify (new_block pos pre h) pre (with_next pos)) g
      → Chained pre q pos offs h g
  behind pre q pos offs h g live less at room c =
      let h' = new_block pos pre h in
      let ne : (pre == pos) ≡ false = ground arith in
      record {
        number = suc c.number;
        linked =
            c.same pre ne (below_blocks pre (pos + ul) ul c.number (omega arith))
            ∙ modify-next_self h' pre live (node null q null) (rw ne at) pos;
        chain = (omega arith, c.linked, c.chain);
        fits = omega (arith, c.fits);
        most = omega (arith, c.most);
        same = λ a o i.
            let far : (a == pos) ≡ false = ground arith in
            c.same a far (ground arith) ∙ modify-ne h' pre a (with_next pos) o ∙ rw far refl;
      }

  past_the_end :
      (k pre q pos offs : ℕ) (h : Heap Ptr)
      → h pre ≡ some (node null q null)
      → offs ≤ limit + ul
      → limit < offs
      → Returns (Chained pre q pos offs h) (block_loop (suc k) ul limit pos pre offs h)
  unfolding block_loop
  past_the_end k pre q pos offs h at room over =
      let e : ltb limit offs ≡ true = ground arith in
      rw e (
        returns (record {
          number = 0;
          linked = at;
          chain = tt;
          fits = omega arith;
          most = omega arith;
          same = λ a o i. refl;
        }))

  block_loop-Chained :
      (k pre q pos offs : ℕ) (h : Heap Ptr)
      → pre ≢ null
      → pre < pos
      → h pre ≡ some (node null q null)
      → offs ≤ limit + ul
      → limit < offs + span ul k
      → Returns (Chained pre q pos offs h) (block_loop (suc k) ul limit pos pre offs h)
  unfolding block_loop
  block_loop-Chained zero pre q pos offs h live less at room fuel =
      past_the_end zero pre q pos offs h at room (omega arith)
  block_loop-Chained (suc k) pre q pos offs h live less at room fuel =
      elim (Bool-cases (ltb limit offs)) [
        | inl over ↦ past_the_end (suc k) pre q pos offs h at room (ground arith)
        | inr go ↦
            let h' = new_block pos pre h in
            let ne : (pre == pos) ≡ false = ground arith in
            let inside : offs ≤ limit = ground arith in
            let no_wrap : (offs + ul) % u32_mod ≡ offs + ul = omega arith in
            let here : modify h' pre (with_next pos) pos ≡ some (node null pre null) =
              modify-ne h' pre pos (with_next pos) (ne_sym pre pos ne) ∙ rw (eq_refl pos) refl in
            rw
              (
                go,
                not_null pre live,
                set_next-ok h' pre live (node null q null) (rw ne at) pos,
                no_wrap,
              )
              (mono
                (block_loop-Chained k pos pre (pos + ul) (offs + ul) (modify h' pre (with_next pos))
                  (omega arith) (omega arith) here (omega arith) (omega arith))
                λ g c. behind pre q pos offs h g live less at inside c)
      ]

block_loop_first :
    (k ul limit pos offs : ℕ) (h : Heap Ptr)
    → ltb limit offs ≡ false
    → block_loop (suc k) ul limit pos null offs h
      ≡ block_loop k ul limit (pos + ul) pos ((offs + ul) % u32_mod) (new_block pos null h)
unfolding block_loop
block_loop_first k ul limit pos offs h go = rw go refl

-- The second loop ends at the end of the chain.
chain_walk-ok :
    (k : ℕ) (h : Heap Ptr) (pre : Ptr) (xs : Cells Ptr)
    → Seg h pre null xs
    → length xs < k
    → chain_walk k (first xs null) h ≡ some true
unfolding chain_walk
chain_walk-ok zero h pre xs s fuel = absurd (omega arith)
chain_walk-ok (suc k) h pre [] s fuel = refl
chain_walk-ok (suc k) h pre ((p, v) ∷ xs) (live, at, s) fuel =
    rw (not_null p live, load-ok h p live (node v pre (first xs null)) at)
      (chain_walk-ok k h p xs s (omega arith))

length-blocks : (pos ul n : ℕ) → length (blocks pos ul n) ≡ n
length-blocks pos ul zero = refl
length-blocks pos ul (suc n) = ap suc (length-blocks (pos + ul) ul n)

span-le : (ul n k : ℕ) → 0 < ul → span ul n ≤ span ul k → n ≤ k
span-le ul zero k big le = omega arith
span-le ul (suc n) zero big le = absurd (omega arith)
span-le ul (suc n) (suc k) big le = let r = span-le ul n k big (omega arith) in omega arith

-- A zone cut into as many blocks as fit behind the pool's head, all of them free.
pub record Cut (ul : ℕ) (p : SlabPool) (h : Heap Ptr) (out : SlabPool × Heap Ptr) : Type 0 where
  pub number : ℕ
  pub some_block : 0 < number
  pub addr : out.0.addr ≡ p.addr
  pub lists : IsPool out.1 out.0 (blocks (p.addr + sizeof_pool) ul number) []
  pub fits : sizeof_pool + number * ul ≤ p.length
  pub most : p.length < sizeof_pool + suc number * ul
  pub same : SameOutside (blocks (p.addr + sizeof_pool) ul number) h out.1

-- For a pool at an address other than NULL and a positive block size, where one block at least
-- fits behind the pool's head and the length is below 2^32, init_memblock with enough fuel cuts
-- the zone into free blocks in ascending order, as many as fit, and changes no other memory.
pub init_blocks-Cut :
    (k ul : ℕ) (p : SlabPool) (h : Heap Ptr)
    → 0 < ul
    → 0 < p.addr
    → sizeof_pool + ul ≤ p.length
    → p.length < u32_mod
    → p.length ≤ k * ul
    → Returns (Cut ul p h) (init_blocks (suc (suc k)) ul p h)
unfolding init_blocks
init_blocks-Cut k ul p h big placed room small fuel =
    let limit = p.length - ul in
    let pos = p.addr + sizeof_pool in
    let e : (p.length + u32_mod - ul) % u32_mod ≡ limit = omega arith in
    let go : ltb limit sizeof_pool ≡ false = ground arith in
    let no_wrap : (sizeof_pool + ul) % u32_mod ≡ sizeof_pool + ul = omega arith in
    let g₀ = new_block pos null h in
    let short : (n : ℕ) → span ul n ≤ span ul k → length (blocks pos ul (suc n)) < suc (suc k) =
      λ n le. rw (length-blocks pos ul (suc n)) (let r = span-le ul n k big le in omega arith) in
    let here : g₀ pos ≡ some (node null null null) = rw (eq_refl pos) refl in
    rw (e, block_loop_first (suc k) ul limit pos sizeof_pool h go, no_wrap)
      (bind
        (block_loop-Chained ul limit big (omega arith) k pos null (pos + ul) (sizeof_pool + ul) g₀
          (omega arith) (omega arith) here (omega arith) (omega (arith, span-mul ul k)))
        λ g c.
          let n = suc c.number in
          let chain : Seg g null null (blocks pos ul n) = (omega arith, c.linked, c.chain) in
          rw
            (chain_walk-ok (suc (suc k)) g null (blocks pos ul n) chain
              (short c.number (omega (arith, c.fits, span-mul ul k))))
            (returns (record {
              number = n;
              some_block = omega arith;
              addr = refl;
              lists = record {
                free_chain = chain;
                used_chain = tt;
                free_head = refl;
                used_head = refl;
                owned = tt;
                free_distinct = blocks-Distinct pos ul n big;
                used_distinct = tt;
                apart = λ a i. refl;
              };
              fits = omega (arith, c.fits, span-mul ul n);
              most = omega (arith, c.most, span-mul ul (suc n));
              same = λ a o.
                  let far : (a == pos) ≡ false = ground arith in
                  c.same a far (ground arith) ∙ rw far refl;
            })))
