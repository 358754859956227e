-- ===== src/Links/Writes.antt =====
-- When the accesses of a heap succeed, and with what.
use record_lib.Base.{◌≡◌, ◌≢◌, false, some, none, arith, ◌==◌, if◌then◌else◌}
use record_lib.Links.{
  Ptr, null, Node, node, Heap, modify, with_prev, with_next, with_val, load, set_prev, set_next,
  set_val, free,
}

pub not_null : (p : Ptr) → p ≢ null → (p == null) ≡ false
not_null p live = ground arith

module _ {A : Type 0} (h : Heap A) (p : Ptr) (live : p ≢ null) (n : Node A)
    (at : h p ≡ some n) where
  pub load-ok : load p h ≡ some n
  unfolding load
  load-ok = rw (not_null p live, at)

  pub set_prev-ok : (q : Ptr) → set_prev p q h ≡ some (modify h p (with_prev q))
  unfolding set_prev
  set_prev-ok q = rw (not_null p live, at)

  pub set_next-ok : (q : Ptr) → set_next p q h ≡ some (modify h p (with_next q))
  unfolding set_next
  set_next-ok q = rw (not_null p live, at)

  pub set_val-ok : (v : A) → set_val p v h ≡ some (modify h p (with_val v))
  unfolding set_val
  set_val-ok v = rw (not_null p live, at)

  pub free-ok : free p h ≡ some (λ a. if a == p then none else h a)
  unfolding free
  free-ok = rw (not_null p live, at)

  -- Both pointers of a node set, one after the other.
  pub relink-prev :
      (q r : Ptr) → modify (modify h p (with_prev q)) p (with_next r) p ≡ some (node n.val q r)
  unfolding modify
  relink-prev q r = ground arith

  pub modify-prev_self : (q : Ptr) → modify h p (with_prev q) p ≡ some (with_prev q n)
  unfolding modify
  modify-prev_self q = ground arith

  pub modify-next_self : (q : Ptr) → modify h p (with_next q) p ≡ some (with_next q n)
  unfolding modify
  modify-next_self q = ground arith

  pub relink-next :
      (q r : Ptr) → modify (modify h p (with_next r)) p (with_prev q) p ≡ some (node n.val q r)
  unfolding modify
  relink-next q r = ground arith

  pub modify-val_self : (v : A) → modify h p (with_val v) p ≡ some (with_val v n)
  unfolding modify
  modify-val_self v = ground arith
