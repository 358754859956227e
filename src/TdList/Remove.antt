-- ===== src/TdList/Remove.antt =====
-- `remove_node` of src/datas/t_dlist.h, in its two halves.
use record_lib.Base.{
  ◌≡◌, ◌≢◌, refl, sym, ◌∙◌, inl, inr, false, true, some, [], ◌∷◌, ◌++◌, arith, Bool-cases,
  length-append, Returns, returns, bind, ◌+◌, ◌-◌, ◌%◌, u32_mod, eq_refl, ne_sym,
}
use record_lib.Links.{Ptr, null, node, with_prev, with_next}
use record_lib.Links.Seg.{
  Cells, has, first, last, Distinct, Seg, SameOutside, Seg-holds, Seg-modify, Seg-set_last,
  Seg-set_first, Seg-append, Seg-front, Seg-back, Distinct-append, Distinct-front, Distinct-back,
  Distinct-apart, not-has-append, last-mem, last-append, modify-ne, ne_of_mem, first_ne,
}
use record_lib.Links.Writes.{load-ok, set_prev-ok, set_next-ok}
use record_lib.TdList.{TdList, unlink_next, unlink_prev, remove_node}
use record_lib.TdList.Inv.{IsList, Holds}
use record_lib.TdList.Add.{placed, placed-ne, placed_self, Seg-placed, place-prev, place-next}

module _ {A : Type 0} (xs : Cells A) (p : Ptr) (v : A) (ys : Cells A) where
  -- A list's addresses, seen from one of its nodes.
  pub record Apart : Type 0 where
    pub not_front : has p xs ≡ false
    pub not_back : has p ys ≡ false
    pub front : Distinct xs
    pub back : Distinct ys
    pub apart : (a : Ptr) → has a xs ≡ true → has a ys ≡ false
    pub behind : (a : Ptr) → has a ys ≡ true → has a xs ≡ false

  pub Distinct-Apart : Distinct (xs ++ (p, v) ∷ ys) → Apart
  Distinct-Apart d =
      let back = Distinct-back xs ((p, v) ∷ ys) d in
      record {
        not_front = elim (Bool-cases (has p xs)) [
          | inl e ↦ absurd (ground (arith, Distinct-apart p xs ((p, v) ∷ ys) d e))
          | inr e ↦ e
        ];
        not_back = back.0;
        front = Distinct-front xs ((p, v) ∷ ys) d;
        back = back.1;
        apart = λ a i. ground (arith, Distinct-apart a xs ((p, v) ∷ ys) d i);
        behind = λ a i. elim (Bool-cases (has a xs)) [
          | inl e ↦ absurd (ground (arith, Distinct-apart a xs ((p, v) ∷ ys) d e))
          | inr e ↦ e
        ];
      }

  -- After `unlink_next`: the front skips the node, and the back still starts behind it.
  record Skipped (s t : TdList A) : Type 0 where
    front : Seg t.heap null (first ys null) xs
    back : Seg t.heap p null ys
    here : t.heap p ≡ some (node v (last null xs) (first ys null))
    head : t.head ≡ first xs (first ys null)
    tail : t.tail ≡ last null (xs ++ (p, v) ∷ ys)
    count : t.num_nodes ≡ s.num_nodes
    same : SameOutside (xs ++ (p, v) ∷ ys) s.heap t.heap

  -- After `unlink_prev`: front and back are linked to one another.
  record Joined (s t : TdList A) : Type 0 where
    front : Seg t.heap null (first ys null) xs
    back : Seg t.heap (last null xs) null ys
    here : t.heap p ≡ some (node v (last null xs) (first ys null))
    head : t.head ≡ first xs (first ys null)
    tail : t.tail ≡ last (last null xs) ys
    count : t.num_nodes ≡ s.num_nodes
    same : SameOutside (xs ++ (p, v) ∷ ys) s.heap t.heap

  abbrev pub Removed : TdList A → TdList A → Type 0
  Removed s t =
      IsList t (xs ++ ys)
      × (t.heap p ≡ some (node v null null))
      × SameOutside (xs ++ (p, v) ∷ ys) s.heap t.heap

module _ {A : Type 0} where
  pub first-append :
      (xs ys : Cells A) (stop : Ptr) → first (xs ++ ys) stop ≡ first xs (first ys stop)
  first-append [] ys stop = refl
  first-append (x ∷ xs) ys stop = refl

  unlink_next-Skipped :
      {s : TdList A} (xs : Cells A) (p : Ptr) (v : A) (ys : Cells A)
      → IsList s (xs ++ (p, v) ∷ ys)
      → Returns (Skipped xs p v ys s) (unlink_next p s)
  unfolding unlink_next
  unlink_next-Skipped {s} [] p v ys is =
      let (live, at, rest) = is.chain in
      rw (load-ok s.heap p live (node v null (first ys null)) at, is.head, eq_refl p)
        (returns (record {
          front = tt;
          back = rest;
          here = at;
          head = refl;
          tail = is.tail;
          count = refl;
          same = λ a o. refl;
        }))
  unlink_next-Skipped {s} (c ∷ xs) p v ys is =
      let t = last null (c ∷ xs) in
      let q = first ys null in
      let ds = Distinct-Apart (c ∷ xs) p v ys is.distinct in
      let front = Seg-front s.heap null null (c ∷ xs) ((p, v) ∷ ys) is.chain in
      let (live, at, rest) = Seg-back s.heap null null (c ∷ xs) ((p, v) ∷ ys) is.chain in
      let in_front = last-mem null c xs in
      let (n, live_t, at_t) = Seg-holds s.heap null p (c ∷ xs) t front in_front in
      let t_ne = ne_of_mem p t (c ∷ xs) ds.not_front in_front in
      rw
        (
          load-ok s.heap p live (node v t q) at,
          is.head,
          first_ne c xs p ds.not_front,
          set_next-ok s.heap t live_t n at_t q,
        )
        (returns (record {
          front = Seg-set_last s.heap null p q c xs front ds.front;
          back = Seg-modify s.heap p null t (with_next q) ys rest (ds.apart t in_front);
          here = modify-ne s.heap t p (with_next q) t_ne ∙ at;
          head = refl;
          tail = is.tail;
          count = refl;
          same = λ a o.
              modify-ne s.heap t a (with_next q)
                (ne_of_mem a t (c ∷ xs) (not-has-append a (c ∷ xs) ((p, v) ∷ ys) o).0 in_front);
        }))

  unlink_prev-Joined :
      {s t : TdList A} (xs : Cells A) (p : Ptr) (v : A) (ys : Cells A)
      → p ≢ null
      → Distinct (xs ++ (p, v) ∷ ys)
      → Skipped xs p v ys s t
      → Returns (Joined xs p v ys s) (unlink_prev p t)
  unfolding unlink_prev
  unlink_prev-Joined {s} {t} xs p v [] live d sk =
      rw
        (
          load-ok t.heap p live (node v (last null xs) null) sk.here,
          sk.tail,
          last-append null xs ((p, v) ∷ []),
          eq_refl p,
        )
        (returns (record {
          front = sk.front;
          back = tt;
          here = sk.here;
          head = sk.head;
          tail = refl;
          count = sk.count;
          same = sk.same;
        }))
  unlink_prev-Joined {s} {t} xs p v ((q, w) ∷ ys) live d sk =
      let ds = Distinct-Apart xs p v ((q, w) ∷ ys) d in
      let (live_q, at_q, rest) = sk.back in
      let pre = last null xs in
      rw
        (
          load-ok t.heap p live (node v pre q) sk.here,
          sk.tail,
          last-append null xs ((p, v) ∷ (q, w) ∷ ys),
          ne_sym p (last p ((q, w) ∷ ys))
              (ne_of_mem p (last p ((q, w) ∷ ys)) ((q, w) ∷ ys) ds.not_back (last-mem p (q, w) ys)),
          set_prev-ok t.heap q live_q (node w p (first ys null)) at_q pre,
        )
        (returns (record {
          front =
              Seg-modify t.heap null q q (with_prev pre) xs sk.front (ds.behind q (ground arith));
          back = Seg-set_first t.heap p null pre q w ys sk.back ds.back;
          here = modify-ne t.heap q p (with_prev pre) (ground (arith, ds.not_back)) ∙ sk.here;
          head = sk.head;
          tail = refl;
          count = sk.count;
          same = λ a o.
              let far = (not-has-append a xs ((p, v) ∷ (q, w) ∷ ys) o).1 in
              modify-ne t.heap q a (with_prev pre) (ground arith) ∙ sk.same a o;
        }))

  Joined-Holds :
      {s t : TdList A} {xs : Cells A} {p : Ptr} {v : A} {ys : Cells A}
      → Joined xs p v ys s t
      → p ≢ null
      → Holds t.heap p v
  Joined-Holds {xs} {v} {ys} j live = record {
    live = live;
    content = node v (last null xs) (first ys null);
    at = j.here;
    element = refl;
  }

  remove_node-Joined :
      {s t : TdList A} (xs : Cells A) (p : Ptr) (v : A) (ys : Cells A)
      → IsList s (xs ++ (p, v) ∷ ys)
      → p ≢ null
      → Joined xs p v ys s t
      → let h = placed t.heap p null null in
        Removed xs p v ys s
          (record t { heap = h; num_nodes = (t.num_nodes + u32_mod - 1) % u32_mod })
  remove_node-Joined {s} {t} xs p v ys is live j =
      let ds = Distinct-Apart xs p v ys is.distinct in
      let h = placed t.heap p null null in
      (
        record {
          chain =
              Seg-append h null null xs ys
                (Seg-placed t.heap null (first ys null) p null null xs j.front ds.not_front)
                (Seg-placed t.heap (last null xs) null p null null ys j.back ds.not_back);
          distinct = Distinct-append xs ys ds.front ds.back ds.apart;
          head = j.head ∙ sym (first-append xs ys null);
          tail = j.tail ∙ sym (last-append null xs ys);
          count =
              omega (arith, j.count, is.count, length-append xs ys, length-append xs ((p, v) ∷ ys));
        },
        placed_self (Joined-Holds j live) null null,
        λ a o.
            placed-ne t.heap p null null a (ground (arith, not-has-append a xs ((p, v) ∷ ys) o))
            ∙ j.same a o,
      )

  -- Removing a node of a well-formed list, wherever it stands, raises no fault and leaves a well-
  -- formed list of the other nodes in the old order with the count lowered (modulo 2^32); the
  -- removed node keeps its element with both links NULL, and memory outside the old list is
  -- unchanged.
  pub remove_node-Removed :
      {s : TdList A} (xs : Cells A) (p : Ptr) (v : A) (ys : Cells A)
      → IsList s (xs ++ (p, v) ∷ ys)
      → Returns (Removed xs p v ys s) (remove_node p s)
  unfolding remove_node
  remove_node-Removed {s} xs p v ys is =
      let live = (Seg-back s.heap null null xs ((p, v) ∷ ys) is.chain).0 in
      bind (unlink_next-Skipped xs p v ys is) λ t sk.
        bind (unlink_prev-Joined xs p v ys live is.distinct sk) λ u j.
          let new = Joined-Holds j live in
          rw (place-prev new null, place-next new null null)
            (returns (remove_node-Joined xs p v ys is live j))
