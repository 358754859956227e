-- ===== src/Slab/Release.antt =====
-- `release_block`: a used block moves to the front of the free list.
use record_lib.Base.{
  ◌≡◌, refl, ap, ◌∙◌, inl, inr, true, false, some, [], ◌∷◌, ◌++◌, arith, ◌==◌, Returns, returns,
  bind, Bool-cases, eq_refl,
}
use record_lib.Links.{Ptr, null, node, Node, Heap, modify, with_prev, with_next}
use record_lib.Links.Seg.{
  Cells, has, first, last, Distinct, Seg, SameOutside, Seg-modify, Seg-front, Seg-back, Seg-holds,
  modify-ne, not-has-append, has-append, Distinct-front, Distinct-back, Distinct-append,
  Distinct-apart, last-mem,
}
use record_lib.Links.Writes.{
  load-ok, not_null, set_prev-ok, set_next-ok, relink-prev, modify-prev_self,
}
use record_lib.Links.Back.{Apart, Apart-sym, Apart-cons, frame_apart, link_back-Seg, bridge-Seg}
use record_lib.Slab.{SlabPool, unlink_used, release_block}
use record_lib.Slab.Inv.{IsPool, Owned}

pub Owned-append :
    (mp : Ptr) (xs : Cells Ptr) (b v : Ptr) (ys : Cells Ptr)
    → Owned mp (xs ++ (b, v) ∷ ys)
    → Owned mp (xs ++ ys) × (v ≡ mp)
Owned-append mp [] b v ys (e, o) = (o, e)
Owned-append mp ((p, w) ∷ xs) b v ys (e, o) =
    let (o', e') = Owned-append mp xs b v ys o in ((e, o'), e')

has-mid : (b v : Ptr) (xs ys : Cells Ptr) → has b (xs ++ (b, v) ∷ ys) ≡ true
has-mid b v xs ys = has-append b xs ((b, v) ∷ ys) ∙ ground (arith, eq_refl b)

-- A used block is on no other place of the two lists.
without :
    {h : Heap Ptr} {p : SlabPool} (b v : Ptr) (free xs ys : Cells Ptr)
    → IsPool h p free (xs ++ (b, v) ∷ ys)
    → (has b (xs ++ ys) ≡ false) × Apart free (xs ++ ys) × Distinct (xs ++ ys)
without b v free xs ys is =
    let d = is.used_distinct in
    let (b_ys, dy) = Distinct-back xs ((b, v) ∷ ys) d in
    let b_xs : has b xs ≡ false = elim (Bool-cases (has b xs)) [
      | inl e ↦ absurd (ground (arith, Distinct-apart b xs ((b, v) ∷ ys) d e))
      | inr e ↦ e
    ] in
    (
      has-append b xs ys ∙ ground arith,
      λ a i.
          let (far, near) = not-has-append a xs ((b, v) ∷ ys) (is.apart a i) in
          has-append a xs ys ∙ ground arith,
      Distinct-append xs ys (Distinct-front xs ((b, v) ∷ ys) d) dy
          (λ a i. ground (arith, Distinct-apart a xs ((b, v) ∷ ys) d i)),
    )

placed-ne :
    (h : Heap Ptr) (b f a : Ptr)
    → (a == b) ≡ false
    → modify (modify h b (with_prev null)) b (with_next f) a ≡ h a
placed-ne h b f a e =
    modify-ne (modify h b (with_prev null)) b a (with_next f) e ∙ modify-ne h b a (with_prev null) e

Seg-placed :
    (h : Heap Ptr) (b f pre : Ptr) (xs : Cells Ptr)
    → Seg h pre null xs
    → has b xs ≡ false
    → Seg (modify (modify h b (with_prev null)) b (with_next f)) pre null xs
Seg-placed h b f pre xs s out =
    Seg-modify (modify h b (with_prev null)) pre null b (with_next f) xs
      (Seg-modify h pre null b (with_prev null) xs s out) out

-- The used list without the block.
pub record Unlinked (b v : Ptr) (xs ys : Cells Ptr) (h : Heap Ptr) (out : Ptr × Heap Ptr)
    : Type 0 where
  pub used : Seg out.1 null null (xs ++ ys)
  pub head : out.0 ≡ first (xs ++ ys) null
  pub content : Node Ptr
  pub at : out.1 b ≡ some content
  pub value : content.val ≡ v
  pub same : SameOutside (xs ++ ys) h out.1

unlink_used-Unlinked :
    {h : Heap Ptr} (p : SlabPool) (b v : Ptr) (xs ys : Cells Ptr)
    → Seg h null null (xs ++ (b, v) ∷ ys)
    → Distinct (xs ++ (b, v) ∷ ys)
    → p.usedhead ≡ first (xs ++ (b, v) ∷ ys) null
    → Returns (Unlinked b v xs ys h) (unlink_used b p h)
unfolding unlink_used
unlink_used-Unlinked {h} p b v [] ys (live, at, rest) (out, d) head =
    rw (load-ok h b live (node v null (first ys null)) at) (
      bind (link_back-Seg h b null ys rest d) λ g (s, o). returns (record {
        used = s;
        head = refl;
        content = node v null (first ys null);
        at = o b out ∙ at;
        value = refl;
        same = o;
      }))
unlink_used-Unlinked {h} p b v (c ∷ xs) ys s d head =
    let front = Seg-front h null null (c ∷ xs) ((b, v) ∷ ys) s in
    let (live, at, rest) = Seg-back h null null (c ∷ xs) ((b, v) ∷ ys) s in
    let (b_ys, dy) = Distinct-back (c ∷ xs) ((b, v) ∷ ys) d in
    let dx = Distinct-front (c ∷ xs) ((b, v) ∷ ys) d in
    let apart : Apart (c ∷ xs) ys =
      λ a i. ground (arith, Distinct-apart a (c ∷ xs) ((b, v) ∷ ys) d i) in
    let b_xs : has b (c ∷ xs) ≡ false = elim (Bool-cases (has b (c ∷ xs))) [
      | inl e ↦ absurd (ground (arith, Distinct-apart b (c ∷ xs) ((b, v) ∷ ys) d e))
      | inr e ↦ e
    ] in
    let t = last null (c ∷ xs) in
    let (n, live_t, at_t) = Seg-holds h null b (c ∷ xs) t front (last-mem null c xs) in
    rw (load-ok h b live (node v t (first ys null)) at, not_null t live_t)
      (bind (bridge-Seg h b b c xs ys front rest dx dy apart) λ g (s', o). returns (record {
        used = s';
        head = head;
        content = node v t (first ys null);
        at = o b (has-append b (c ∷ xs) ys ∙ ground arith) ∙ at;
        value = refl;
        same = o;
      }))

-- The block `b` becomes the first free one.
pub record Released (b v : Ptr) (free used : Cells Ptr) (p : SlabPool) (h : Heap Ptr)
    (out : SlabPool × Heap Ptr) : Type 0 where
  pub addr : out.0.addr ≡ p.addr
  pub lists : IsPool out.1 out.0 ((b, v) ∷ free) used
  pub same : SameOutside ((b, v) ∷ free ++ used) h out.1

pub release_block-Released :
    {h : Heap Ptr} {p : SlabPool} (b v : Ptr) (free xs ys : Cells Ptr)
    → IsPool h p free (xs ++ (b, v) ∷ ys)
    → Returns (Released b v free (xs ++ ys) p h) (release_block b p h)
unfolding release_block
release_block-Released {h} {p} b v free xs ys is =
    let used = xs ++ ys in
    let (live, _, _) = Seg-back h null null xs ((b, v) ∷ ys) is.used_chain in
    let (b_used, free_used, d) = without b v free xs ys is in
    let b_free = Apart-sym free (xs ++ (b, v) ∷ ys) is.apart b (has-mid b v xs ys) in
    let f = first free null in
    bind (unlink_used-Unlinked p b v xs ys is.used_chain is.used_distinct is.used_head) λ out₁ un.
      let g₁ = out₁.1 in
      let free₁ = frame_apart h g₁ null null used free un.same free_used is.free_chain in
      rw is.free_head (
        bind (link_back-Seg g₁ null b free free₁ is.free_distinct) λ g₂ (s₂, o₂).
          let at₂ = o₂ b b_free ∙ un.at in
          let used₂ =
            frame_apart g₁ g₂ null null free used o₂ (Apart-sym free used free_used) un.used in
          rw
            (
              set_prev-ok g₂ b live un.content at₂ null,
              set_next-ok (modify g₂ b (with_prev null)) b live (with_prev null un.content)
                  (modify-prev_self g₂ b live un.content at₂ null) f,
            )
            (returns (record {
              addr = refl;
              lists = record {
                free_chain = (
                  live,
                  relink-prev g₂ b live un.content at₂ null f
                      ∙ ap (λ w. some (node w null f)) un.value,
                  Seg-placed g₂ b f b free s₂ b_free,
                );
                used_chain = Seg-placed g₂ b f null used used₂ b_used;
                free_head = refl;
                used_head = un.head;
                owned = (Owned-append p.addr xs b v ys is.owned).0;
                free_distinct = (b_free, is.free_distinct);
                used_distinct = d;
                apart = Apart-cons b v free used b_used free_used;
              };
              same = λ a o.
                  let (far, apart) = not-has-append a ((b, v) ∷ free) used o in
                  let ne : (a == b) ≡ false = ground arith in
                  placed-ne g₂ b f a ne ∙ o₂ a (ground arith) ∙ un.same a apart;
            })))
