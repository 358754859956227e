-- ===== src/Slab/Template.antt =====
-- The template `pure_slab_t<T, MAX_NUM>` of src/mem_pool/pure_slab_t.h, whose pools and blocks are
-- those of `pure_slab`: with a maximum, and without one (MAX_NUM = 0), where nothing is counted.
use mathlib.Core.Option
use record_lib.Base.{
  ℕ, ◌+◌, ◌-◌, ◌==◌, ◌≡◌, refl, false, Option, none, some, if◌then◌else◌, ◌>>=◌, inl, inr,
  Option-cases, u32_mod,
}
use record_lib.Links.{Ptr, load}
use record_lib.Slab.{
  Slab, s32_leb, at_limit, chain_alloc, alloc_block, slab_alloc, release_in, slab_free,
}

-- `m_alloced_num >= m_max_num`
pub limited_alloc : ℕ → (fresh : Option ℕ) → Slab → Option (Option Ptr × Slab)
unfolding alloc_block
limited_alloc fuel fresh s =
    if s32_leb s.max_num s.alloced_num then some (none, s) else alloc_block fuel fresh s

-- The specialisation without a count: `max_num` and `alloced_num` stand for nothing.
pub unlimited_alloc : ℕ → (fresh : Option ℕ) → Slab → Option (Option Ptr × Slab)
unlimited_alloc fuel fresh s = do
  (found, ps, h) ← chain_alloc fuel fresh s.poolsize s.mbsize s.pools s.heap
  some (Option.map (λ b. b + s.alignedsize) found, record s { pools = ps; heap = h })

pub unlimited_free : Ptr → Slab → Option Slab
unlimited_free addr s = do
  let b = addr - s.alignedsize
  n ← load b s.heap
  (ps, h) ← release_in b n.val s.pools s.heap
  some (record s { pools = ps; heap = h })

-- The allocator with its count put back to what it was.
abbrev pub uncounted : Slab → Slab → Slab
uncounted s t = record t { alloced_num = s.alloced_num }

-- With a maximum other than -1 the two tests agree.
limited_alloc-slab_alloc :
    (fuel : ℕ) (memory : Option ℕ) (s : Slab)
    → (s.max_num == u32_mod - 1) ≡ false
    → limited_alloc fuel memory s ≡ slab_alloc fuel memory s
unfolding limited_alloc slab_alloc
limited_alloc-slab_alloc fuel memory s max = rw max refl

-- The allocation of the template without a maximum answers and leaves what slab_alloc does when
-- its maximum is -1, but for the count, which it does not keep.
pub unlimited_alloc-slab_alloc :
    (fuel : ℕ) (memory : Option ℕ) (s : Slab)
    → s.max_num ≡ u32_mod - 1
    → unlimited_alloc fuel memory s
      ≡ Option.map (λ (found, t). (found, uncounted s t)) (slab_alloc fuel memory s)
unfolding unlimited_alloc slab_alloc
unlimited_alloc-slab_alloc fuel memory s max =
    let no_limit : at_limit s ≡ false = rw max refl in
    elim (Option-cases (chain_alloc fuel memory s.poolsize s.mbsize s.pools s.heap)) [
      | inl e ↦ rw (no_limit, e) refl
      | inr ((found, ps, h), e) ↦ elim (Option-cases found) [
        | inl e' ↦ rw (no_limit, e, e') refl
        | inr (b, e') ↦ rw (no_limit, e, e') refl
      ]
    ]

-- The release of the template without a maximum faults when slab_free does, and else leaves what
-- slab_free leaves, but for the count.
pub unlimited_free-slab_free :
    (addr : Ptr) (s : Slab) → unlimited_free addr s ≡ Option.map (uncounted s) (slab_free addr s)
unfolding unlimited_free slab_free
unlimited_free-slab_free addr s =
    let b = addr - s.alignedsize in
    elim (Option-cases (load b s.heap)) [
      | inl e ↦ rw e refl
      | inr (n, e) ↦ elim (Option-cases (release_in b n.val s.pools s.heap)) [
        | inl e' ↦ rw (e, e') refl
        | inr (out, e') ↦ rw (e, e') refl
      ]
    ]
