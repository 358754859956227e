-- ===== src/TdList/Add.antt =====
-- `add_node_to_tail` and `add_node` of src/datas/t_dlist.h.
use record_lib.Base.{
  ◌≡◌, refl, sym, ap, ◌∙◌, false, some, [], ◌∷◌, ◌++◌, arith, ◌==◌, length-append, Returns, returns,
}
use record_lib.Links.{Ptr, null, Node, node, Heap, set_prev, set_next, modify, with_prev, with_next}
use record_lib.Links.Seg.{
  Cells, has, first, last, Seg, SameOutside, Seg-holds, Seg-modify, Seg-set_last, Seg-set_first,
  Seg-append, Distinct-snoc, not-has-append, last-mem, last-append, modify-ne, ne_of_mem,
}
use record_lib.Links.Writes.{set_prev-ok, not_null, set_next-ok, relink-prev, modify-prev_self}
use record_lib.TdList.{TdList, add_node_to_tail, add_node}
use record_lib.TdList.Inv.{IsList, Holds}

module _ {A : Type 0} where
  -- What both insertions do to the heap, once the neighbour is linked.
  abbrev pub placed : Heap A → Ptr → Ptr → Ptr → Heap A
  placed h p q r = modify (modify h p (with_prev q)) p (with_next r)

  pub placed-ne : (h : Heap A) (p q r a : Ptr) → (a == p) ≡ false → placed h p q r a ≡ h a
  placed-ne h p q r a e =
      modify-ne (modify h p (with_prev q)) p a (with_next r) e ∙ modify-ne h p a (with_prev q) e

  pub placed_self :
      {h : Heap A} {p : Ptr} {v : A} (new : Holds h p v) (q r : Ptr)
      → placed h p q r p ≡ some (node v q r)
  placed_self {h} {p} new q r =
      relink-prev h p new.live new.content new.at q r ∙ ap (λ w. some (node w q r)) new.element

  pub Seg-placed :
      (h : Heap A) (pre stop p q r : Ptr) (xs : Cells A)
      → Seg h pre stop xs
      → has p xs ≡ false
      → Seg (placed h p q r) pre stop xs
  Seg-placed h pre stop p q r xs s out =
      Seg-modify (modify h p (with_prev q)) pre stop p (with_next r) xs
        (Seg-modify h pre stop p (with_prev q) xs s out) out

  pub place-prev :
      {h : Heap A} {p : Ptr} {v : A}
      → Holds h p v
      → (q : Ptr) → set_prev p q h ≡ some (modify h p (with_prev q))
  place-prev {h} {p} new q = set_prev-ok h p new.live new.content new.at q

  pub place-next :
      {h : Heap A} {p : Ptr} {v : A}
      → Holds h p v
      → (q r : Ptr) → set_next p r (modify h p (with_prev q)) ≡ some (placed h p q r)
  place-next {h} {p} new q r =
      set_next-ok (modify h p (with_prev q)) p new.live (with_prev q new.content)
        (modify-prev_self h p new.live new.content new.at q) r

  Holds-modify :
      {h : Heap A} {p : Ptr} {v : A} (a : Ptr) (f : Node A → Node A)
      → Holds h p v
      → (p == a) ≡ false
      → Holds (modify h a f) p v
  Holds-modify {h} {p} a f new ne = record {
    live = new.live;
    content = new.content;
    at = modify-ne h a p f ne ∙ new.at;
    element = new.element;
  }

  -- Adding a node that is live and not in the well-formed list to its tail raises no fault and
  -- gives a well-formed list with the node behind the others; memory outside the new list is
  -- unchanged.
  pub add_node_to_tail-append :
      {s : TdList A} {xs : Cells A} (p : Ptr) (v : A)
      → IsList s xs
      → Holds s.heap p v
      → has p xs ≡ false
      → Returns
          (λ s'. IsList s' (xs ++ (p, v) ∷ []) × SameOutside (xs ++ (p, v) ∷ []) s.heap s'.heap)
          (add_node_to_tail p s)
  unfolding add_node_to_tail
  add_node_to_tail-append {s} {xs = []} p v is new out =
      rw (is.tail, place-prev new null, place-next new null null, is.head)
        (returns (
          record {
            chain = (new.live, placed_self new null null, tt);
            distinct = (refl, tt);
            head = refl;
            tail = refl;
            count = omega (arith, is.count);
          },
          λ a o. placed-ne s.heap p null null a (ground arith),
        ))
  add_node_to_tail-append {s} {xs = c ∷ xs} p v is new out =
      let t = last null (c ∷ xs) in
      let (n, live, at) = Seg-holds s.heap null null (c ∷ xs) t is.chain (last-mem null c xs) in
      let ne = ne_of_mem p t (c ∷ xs) out (last-mem null c xs) in
      let h = modify s.heap t (with_next p) in
      let new' = Holds-modify t (with_next p) new ne in
      let linked = Seg-set_last s.heap null null p c xs is.chain is.distinct in
      rw
        (
          is.tail,
          not_null t live,
          set_next-ok s.heap t live n at p,
          place-prev new' t,
          place-next new' t null,
          is.head,
          not_null c.0 is.chain.0,
        )
        (returns (
          record {
            chain =
                Seg-append (placed h p t null) null null (c ∷ xs) ((p, v) ∷ [])
                  (Seg-placed h null p p t null (c ∷ xs) linked out)
                  (new.live, placed_self new' t null, tt);
            distinct = Distinct-snoc (c ∷ xs) p v is.distinct out;
            head = refl;
            tail = sym (last-append null (c ∷ xs) ((p, v) ∷ []));
            count = omega (arith, is.count, length-append (c ∷ xs) ((p, v) ∷ []));
          },
          λ a o.
              let (far, apart) = not-has-append a (c ∷ xs) ((p, v) ∷ []) o in
              placed-ne h p t null a (ground arith)
              ∙ modify-ne s.heap t a (with_next p)
                  (ne_of_mem a t (c ∷ xs) far (last-mem null c xs)),
        ))

  -- Adding a node that is live and not in the well-formed list to its head raises no fault and
  -- gives a well-formed list with the node in front of the others; memory outside the new list is
  -- unchanged.
  pub add_node-cons :
      {s : TdList A} {xs : Cells A} (p : Ptr) (v : A)
      → IsList s xs
      → Holds s.heap p v
      → has p xs ≡ false
      → Returns
          (λ s'. IsList s' ((p, v) ∷ xs) × SameOutside ((p, v) ∷ xs) s.heap s'.heap)
          (add_node p s)
  unfolding add_node
  add_node-cons {s} {xs = []} p v is new out =
      rw (is.head, place-prev new null, place-next new null null, is.tail)
        (returns (
          record {
            chain = (new.live, placed_self new null null, tt);
            distinct = (refl, tt);
            head = refl;
            tail = refl;
            count = omega (arith, is.count);
          },
          λ a o. placed-ne s.heap p null null a (ground arith),
        ))
  add_node-cons {s} {xs = (q, w) ∷ xs} p v is new out =
      let (live, at, rest) = is.chain in
      let h = modify s.heap q (with_prev p) in
      let new' = Holds-modify q (with_prev p) new (ground arith) in
      let t = last null ((q, w) ∷ xs) in
      let end = Seg-holds s.heap null null ((q, w) ∷ xs) t is.chain (last-mem null (q, w) xs) in
      rw
        (
          is.head,
          not_null q live,
          set_prev-ok s.heap q live (node w null (first xs null)) at p,
          place-prev new' null,
          place-next new' null q,
          is.tail,
          not_null t end.1,
        )
        (returns (
          record {
            chain = (
              new.live,
              placed_self new' null q,
              Seg-placed h p null p null q ((q, w) ∷ xs)
                  (Seg-set_first s.heap null null p q w xs is.chain is.distinct) out,
            );
            distinct = (out, is.distinct);
            head = refl;
            tail = refl;
            count = omega (arith, is.count);
          },
          λ a o.
              placed-ne h p null q a (ground arith)
              ∙ modify-ne s.heap q a (with_prev p) (ground arith),
        ))
