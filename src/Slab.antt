-- ===== src/Slab.antt =====
-- `pure_slab` of src/mem_pool/pure_slab.cpp: a chain of pools, each with a doubly linked list of
-- free blocks and one of used blocks. The payload of a block's node is its `mp`, the address of its
-- pool. The chain from `mp_mpool` along `next` is the list of the pools; `none` is a fault or that
-- the fuel of the walk over a new zone ran out.
pub mod Inv
pub mod Init
pub mod Take
pub mod Release
pub mod Alloc
pub mod Zone
pub mod Grow
pub mod Make
pub mod Template
pub mod Free
mod Tests
use record_lib.Base.{
  ℕ, zero, suc, ◌+◌, ◌-◌, ◌*◌, ◌/◌, ◌%◌, ◌^◌, Bool, true, false, ◌||◌, ◌&&◌, not, Option, none,
  some, List, [], ◌∷◌, ◌==◌, leb, ltb, if◌then◌else◌, ◌>>=◌, u32_mod,
}
use record_lib.Base.Align.{align_ptr, align_u32}
use record_lib.Links.{Ptr, null, node, Node, Heap, load, set_prev, set_next, set_val, link_back}

pub record SlabPool : Type 0 where
  pub addr : Ptr
  pub usedhead : Ptr
  pub freehead : Ptr
  pub length : ℕ
  pub off_t : ℕ

-- `max_num` and `alloced_num` are `s32`, kept as their 32 bits.
pub record Slab : Type 0 where
  pub heap : Heap Ptr
  pub pools : List SlabPool
  pub max_num : ℕ
  pub alloced_num : ℕ
  pub mbsize : ℕ
  pub poolsize : ℕ
  pub alignedsize : ℕ

-- `sizeof(memblock)` and `sizeof(mempool)` on a 64-bit machine.
abbrev pub sizeof_block : ℕ
sizeof_block = 24

abbrev pub sizeof_pool : ℕ
sizeof_pool = 32

-- `a <= b` on the bits of two `s32`.
abbrev pub s32_leb : ℕ → ℕ → Bool
s32_leb a b = leb ((a + 2 ^ 31) % u32_mod) ((b + 2 ^ 31) % u32_mod)

-- A new pool in the zone that `new_zone` answers. The two branches of the source differ in where
-- the chain takes the pool.
pub creat_pool : (fresh : Option ℕ) → ℕ → Option SlabPool
creat_pool none l = none
creat_pool (some true_mem) l =
    let mp = align_ptr true_mem 64 in
    let off = (mp - true_mem) % 256 in
    some (record {
      addr = mp;
      usedhead = null;
      freehead = null;
      length = (l + u32_mod - off) % u32_mod;
      off_t = off;
    })

-- The memory at `pos` is zero and becomes a block.
abbrev pub new_block : Ptr → Ptr → Heap Ptr → Heap Ptr
new_block pos pre h a = if a == pos then some (node null pre null) else h a

-- The `while` of `init_memblock`.
unfoldable pub block_loop :
    ℕ → (ul limit : ℕ) → (pos mbpre : Ptr) → ℕ → Heap Ptr → Option (Heap Ptr)
block_loop zero ul limit pos mbpre offs h = none
block_loop (suc k) ul limit pos mbpre offs h = if ltb limit offs then some h else do
  let g = new_block pos mbpre h
  g ← if mbpre == null then some g else set_next mbpre pos g
  block_loop k ul limit (pos + ul) pos ((offs + ul) % u32_mod) g

-- Its second `while`, which reads the chain and changes nothing.
pub chain_walk : ℕ → Ptr → Heap Ptr → Option Bool
chain_walk zero ph h = none
chain_walk (suc k) ph h = if ph == null then some true else do n ← load ph h; chain_walk k n.next h

pub init_blocks : ℕ → ℕ → SlabPool → Heap Ptr → Option (SlabPool × Heap Ptr)
init_blocks fuel ul p h = do
  let start = align_u32 sizeof_pool 8
  let limit = (p.length + u32_mod - ul) % u32_mod
  h ← block_loop fuel ul limit (p.addr + start) null start h
  walked ← chain_walk fuel (p.addr + start) h
  some (record p { freehead = p.addr + start; usedhead = null }, h)

-- The last part of `mempool_alloc`: the first free block goes to the front of the used list. With no
-- free block the source runs off its end.
unfoldable pub take_block : SlabPool → Heap Ptr → Option (Ptr × SlabPool × Heap Ptr)
take_block p h = do
  n ← load p.freehead h
  h ← link_back n.next null h
  h ← set_val p.freehead p.addr h
  h ← link_back p.usedhead p.freehead h
  h ← set_next p.freehead p.usedhead h
  h ← set_prev p.freehead null h
  some (p.freehead, record p { freehead = n.next; usedhead = p.freehead }, h)

-- The last pool of the chain is full: a new one is chained behind it.
pub grow :
    ℕ
    → (fresh : Option ℕ) (poolsize mbsize : ℕ) → SlabPool
    → Heap Ptr
    → Option (Option Ptr × List SlabPool × Heap Ptr)
grow fuel fresh poolsize mbsize p h = elim (creat_pool fresh poolsize) [
  | none ↦ some (none, p ∷ [], h)
  | some q ↦ do
    (q, h) ← init_blocks fuel mbsize q h
    (b, q, h) ← take_block q h
    some (some b, p ∷ q ∷ [], h)
]

-- The search along the chain for a pool with a free block.
pub chain_alloc :
    ℕ
    → (fresh : Option ℕ) (poolsize mbsize : ℕ) → List SlabPool
    → Heap Ptr
    → Option (Option Ptr × List SlabPool × Heap Ptr)
chain_alloc fuel fresh poolsize mbsize [] h = none
chain_alloc fuel fresh poolsize mbsize (p ∷ []) h =
    if p.freehead == null
    then grow fuel fresh poolsize mbsize p h
    else do (b, p, h) ← take_block p h; some (some b, p ∷ [], h)
chain_alloc fuel fresh poolsize mbsize (p ∷ q ∷ ps) h =
    let rest = chain_alloc fuel fresh poolsize mbsize (q ∷ ps) h in
    if p.freehead == null
    then (do (b, ps, h) ← rest; some (b, p ∷ ps, h))
    else do (b, p, h) ← take_block p h; some (some b, p ∷ q ∷ ps, h)

-- `m_max_num != -1 && m_max_num <= m_alloced_num`
abbrev pub at_limit : Slab → Bool
at_limit s = not (s.max_num == u32_mod - 1) && s32_leb s.max_num s.alloced_num

-- `mempool_alloc` behind its first test.
pub alloc_block : ℕ → (fresh : Option ℕ) → Slab → Option (Option Ptr × Slab)
alloc_block fuel fresh s = do
  (found, ps, h) ← chain_alloc fuel fresh s.poolsize s.mbsize s.pools s.heap
  elim found [
    | none ↦ some (none, record s { pools = ps; heap = h })
    | some b ↦ some (
      some (b + s.alignedsize),
      record s { pools = ps; heap = h; alloced_num = (s.alloced_num + 1) % u32_mod },
    )
  ]

-- `slab_alloc`, which passes the first pool to `mempool_alloc`.
pub slab_alloc : ℕ → (fresh : Option ℕ) → Slab → Option (Option Ptr × Slab)
unfolding alloc_block
slab_alloc fuel fresh s = if at_limit s then some (none, s) else alloc_block fuel fresh s

-- The block leaves the used list; the result has the new head of that list.
pub unlink_used : Ptr → SlabPool → Heap Ptr → Option (Ptr × Heap Ptr)
unlink_used b p h = do
  n ← load b h
  if n.prev == null
      then (do h ← link_back n.next null h; some (n.next, h))
      else do h ← (do h ← set_next n.prev n.next h; link_back n.next n.prev h); some (p.usedhead, h)

-- `slab_free` on a pool and one of its blocks.
pub release_block : Ptr → SlabPool → Heap Ptr → Option (SlabPool × Heap Ptr)
unfolding unlink_used
release_block b p h = do
  (used, h) ← unlink_used b p h
  h ← link_back p.freehead b h
  h ← set_prev b null h
  h ← set_next b p.freehead h
  some (record p { usedhead = used; freehead = b }, h)

-- The pool that the block names.
unfoldable pub release_in : Ptr → Ptr → List SlabPool → Heap Ptr → Option (List SlabPool × Heap Ptr)
unfolding release_block
release_in b mp [] h = none
release_in b mp (p ∷ ps) h =
    let rest = release_in b mp ps h in
    if p.addr == mp
    then (do (p, h) ← release_block b p h; some (p ∷ ps, h))
    else do (ps, h) ← rest; some (p ∷ ps, h)

pub slab_free : Ptr → Slab → Option Slab
unfolding release_in
slab_free addr s = do
  let b = addr - s.alignedsize
  n ← load b s.heap
  (ps, h) ← release_in b n.val s.pools s.heap
  some (record s { pools = ps; heap = h; alloced_num = (s.alloced_num + u32_mod - 1) % u32_mod })

-- The size of a block with its head.
abbrev pub block_bytes : ℕ → ℕ
block_bytes block_size = (align_u32 block_size 8 + align_u32 sizeof_block 8) % u32_mod

-- The constructors: a maximum of -1 is none.
pub new_slab : ℕ → (fresh : Option ℕ) (block_size pool_size num : ℕ) → Heap Ptr → Option Slab
new_slab fuel fresh block_size pool_size num h =
    let head = align_u32 sizeof_block 8 in
    let size = block_bytes block_size in
    let pages = align_u32 pool_size 4096 in
    let slab : List SlabPool → Heap Ptr → Slab = λ ps h. record {
      heap = h;
      pools = ps;
      max_num = num;
      alloced_num = 0;
      mbsize = size;
      poolsize = pages;
      alignedsize = head;
    } in
    elim (creat_pool fresh pages) [
      | none ↦ some (slab [] h)
      | some p ↦ do (p, h) ← init_blocks fuel size p h; some (slab (p ∷ []) h)
    ]
