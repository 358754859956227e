-- ===== src/Membox.antt =====
-- The template `membox` of src/mem_pool/p_membox.h: an array of equal blocks, each with a word
-- `seq` that is 1 while the block is in use. A pool lies at an address that `malloc` chose, and the
-- methods are run by one thread; `none` is a fault.
pub mod Inv
pub mod Alloc
pub mod Layout
pub mod Free
mod Tests
use record_lib.Base.{
  ℕ, zero, suc, ◌+◌, ◌-◌, ◌*◌, ◌/◌, ◌%◌, ◌≡◌, Bool, true, false, ◌&&◌, Option, none, some, List, [],
  ◌==◌, ltb, if◌then◌else◌, ◌>>=◌, u32_mod, get_elem?, set, replicate,
}
use record_lib.Base.Align.{align_ptr, align_u32}

abbrev pub alignment : ℕ
alignment = 8

abbrev pub page_size : ℕ
page_size = 4096

abbrev pub cache_line_size : ℕ
cache_line_size = 64

abbrev pub memblock_head : ℕ
memblock_head = 16

-- `seq` and `mp`; the address 0 is NULL.
pub record Memblock : Type 0 where
  pub seq : ℕ
  pub mp : ℕ

-- A pool with its own address and the blocks at `pa`. `next` is NULL in every pool of a box, since
-- only the constructor makes one.
pub record Mempool : Type 0 where
  pub addr : ℕ
  pub length : ℕ
  pub off_t : ℕ
  pub block_num : ℕ
  pub free_num : ℕ
  pub pa : ℕ
  pub blocks : List Memblock

pub record Membox : Type 0 where
  pub mbsize : ℕ
  pub poolsize : ℕ
  pub pool : Option Mempool

-- The array of `memblock`, whose head is `memblock_empty` (16 bytes), for a `sizeof(T)`.
abbrev pub sizeof_memblock : ℕ → ℕ
sizeof_memblock size_t = align_u32 (align_u32 size_t alignment + memblock_head) cache_line_size

-- `next`, `length`, `off_t`, `block_num`, `free_num`, `pa` on a 64-bit machine.
abbrev pub sizeof_mempool : ℕ
sizeof_mempool = 32

-- `creat_mempool` at its one call, where `p` is NULL. `zone` is what `new_zone` returns: the
-- address of zeroed memory, or nothing.
pub creat_mempool : (zone : Option ℕ) → ℕ → Option Mempool
creat_mempool none l = none
creat_mempool (some true_mem) l =
    let mp = align_ptr true_mem cache_line_size in
    let off = (mp - true_mem) % 256 in
    some (record {
      addr = mp;
      length = (l + u32_mod - off) % u32_mod;
      off_t = off;
      block_num = 0;
      free_num = 0;
      pa = 0;
      blocks = [];
    })

-- `ul` is `sizeof(memblock)` at the one call. The subtractions are in `u32`.
pub init_memblock : ℕ → Mempool → Mempool
init_memblock ul p =
    let mpalignsize = align_u32 sizeof_mempool cache_line_size in
    let content_len = (p.length + 2 * u32_mod - ul - mpalignsize) % u32_mod in
    let n = content_len / ul in
    record p {
      pa = p.addr + mpalignsize;
      block_num = n;
      free_num = n;
      blocks = replicate n (record { seq = 0; mp = 0 });
    }

-- The constructor initialises the pool if there is one.
pub init_pool : (size_t : ℕ) → Option Mempool → Option Mempool
unfolding init_memblock
init_pool size_t none = none
init_pool size_t (some p) = some (init_memblock (sizeof_memblock size_t) p)

pub new_membox : (size_t : ℕ) (zone : Option ℕ) → ℕ → Membox
unfolding creat_mempool init_pool
new_membox size_t zone pool_size =
    let size = align_u32 pool_size page_size in
    record {
      mbsize = align_u32 (align_u32 size_t alignment + 8) cache_line_size;
      poolsize = size;
      pool = init_pool size_t (creat_mempool zone size);
    }

-- The block `i` becomes used by the exchange.
pub claim : Mempool → ℕ → Mempool
claim p i = record p {
  blocks = set p.blocks i (record { seq = 1; mp = p.addr });
  free_num = (p.free_num + u32_mod - 1) % u32_mod;
}

-- The `for` of `mempool_alloc`, with the rounds left as fuel: the index of the block found, and
-- the pool with the block claimed. The sum of the indices fits an `int` in pools of less than 2^31
-- blocks; it has no bound here.
pub alloc_loop : ℕ → (startpos i : ℕ) → Mempool → Option (Option ℕ × Mempool)
unfolding claim
alloc_loop zero startpos i p = some (none, p)
alloc_loop (suc k) startpos i p =
    let at = (startpos + i) % p.block_num in
    let rest = alloc_loop k startpos (i + 1) p in
    do b ← get_elem? p.blocks at; if b.seq == 0 then some (some at, claim p at) else rest

pub mempool_alloc : Mempool → Option (Option ℕ × Mempool)
unfolding alloc_loop
mempool_alloc p =
    if p.free_num == 0
    then some (none, p)
    else alloc_loop p.block_num (p.block_num - p.free_num) 0 p

-- The address of the data of a block.
abbrev pub data_of : (size_t : ℕ) → Mempool → ℕ → ℕ
data_of size_t p i = p.pa + i * sizeof_memblock size_t + memblock_head

-- `box_alloc`; the result is a data address, or nothing for NULL. A box without a pool faults.
pub box_alloc : (size_t : ℕ) → Membox → Option (Option ℕ × Membox)
box_alloc size_t m = do
  p ← m.pool
  (found, p') ← mempool_alloc p
  some (
    elim found [ none ↦ none | some i ↦ some (data_of size_t p' i) ],
    record m { pool = some p' },
  )

-- The block of a data address. An address that is no block's is a fault.
pub block_at : (size_t : ℕ) → Mempool → ℕ → Option ℕ
block_at size_t p addr =
    let off = addr - (p.pa + memblock_head) in
    let size = sizeof_memblock size_t in
    if ltb addr (p.pa + memblock_head)
    then none
    else if off % size == 0
    then some (off / size)
    else none

-- The block goes back to its pool.
pub unclaim : Mempool → ℕ → Memblock → Mempool
unclaim p i b = record p {
  blocks = set p.blocks i (record b { seq = 0 });
  free_num = (p.free_num + 1) % u32_mod;
}

-- The exchange of `box_free` on the block `i`. A used block names the pool whose count changes; here
-- that is the pool of the box.
pub free_at : Mempool → ℕ → Membox → Option (Bool × Membox)
free_at p i m = do
  b ← get_elem? p.blocks i
  if b.seq == 1
      then (if b.mp == p.addr then some (true, record m { pool = some (unclaim p i b) }) else none)
      else some (false, m)

-- `box_free`: the first component says whether the block was in use; if not, a message is printed.
pub box_free : (size_t : ℕ) → ℕ → Membox → Option (Bool × Membox)
box_free size_t addr m = do p ← m.pool; i ← block_at size_t p addr; free_at p i m
