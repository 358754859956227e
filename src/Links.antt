-- ===== src/Links.antt =====
-- A heap of doubly linked nodes, as the intrusive lists of the program keep them: the nodes of
-- datas/t_dlist.h, the memory blocks of mem_pool/pure_slab_t.h and the I/O events of
-- base/base_circle.cpp each have two pointers and a payload.
pub mod Seg
pub mod Writes
pub mod Back
use mathlib.Core.Option
use record_lib.Base.{ℕ, Bool, true, false, Option, none, some, ◌==◌, if◌then◌else◌}

-- An address; `null` is NULL.
abbrev pub Ptr : Type 0
Ptr = ℕ

abbrev pub null : Ptr
null = 0

-- The payload of a node beside its two pointers.
pub record Node (A : Type 0) : Type 0 where
  pub val : A
  pub prev : Ptr
  pub next : Ptr

abbrev pub node : {A : Type 0} → A → Ptr → Ptr → Node A
node v p n = record { val = v; prev = p; next = n }

abbrev pub Heap : Type 0 → Type 0
Heap A = Ptr → Option (Node A)

module _ {A : Type 0} where
  unfoldable pub modify : Heap A → Ptr → (Node A → Node A) → Heap A
  modify h p f a = if a == p then Option.map f (h a) else h a

  abbrev pub with_prev : Ptr → Node A → Node A
  with_prev q n = record n { prev = q }

  abbrev pub with_next : Ptr → Node A → Node A
  with_next q n = record n { next = q }

  abbrev pub with_val : A → Node A → Node A
  with_val v n = record n { val = v }

  -- `*p`, a fault at NULL and at an address that holds no node.
  unfoldable pub load : Ptr → Heap A → Option (Node A)
  load p h = if p == null then none else h p

  -- `p->prev = q`
  unfoldable pub set_prev : Ptr → Ptr → Heap A → Option (Heap A)
  unfolding load
  set_prev p q h = Option.map (λ _. modify h p (with_prev q)) (load p h)

  -- `p->next = q`
  unfoldable pub set_next : Ptr → Ptr → Heap A → Option (Heap A)
  unfolding load
  set_next p q h = Option.map (λ _. modify h p (with_next q)) (load p h)

  -- `p->val = v`
  unfoldable pub set_val : Ptr → A → Heap A → Option (Heap A)
  unfolding load
  set_val p v h = Option.map (λ _. modify h p (with_val v)) (load p h)

  -- `if (p != NULL) p->prev = q`
  unfoldable pub link_back : Ptr → Ptr → Heap A → Option (Heap A)
  link_back p q h = if p == null then some h else set_prev p q h

  -- `delete p`: the address holds no node any more.
  unfoldable pub free : Ptr → Heap A → Option (Heap A)
  unfolding load
  free p h = Option.map (λ _ a. if a == p then none else h a) (load p h)
