-- ===== src/Slab/Take.antt =====
-- `take_block`: a block moves from the free list to the front of the used list.
use record_lib.Base.{◌≡◌, refl, ◌∙◌, false, ◌∷◌, ◌++◌, arith, ◌==◌, Returns, returns, bind}
use record_lib.Links.{Ptr, null, node, Heap, modify, with_prev, with_next, with_val}
use record_lib.Links.Seg.{
  Cells, has, first, Seg, SameOutside, Seg-modify, modify-ne, not-has-append,
}
use record_lib.Links.Writes.{
  load-ok, set_prev-ok, set_next-ok, set_val-ok, relink-next, modify-val_self, modify-next_self,
}
use record_lib.Links.Back.{Apart, frame_apart, link_back-Seg}
use record_lib.Slab.{SlabPool, take_block}
use record_lib.Slab.Inv.{IsPool}

-- The block `b` becomes the first used one.
pub record Taken (b : Ptr) (free used : Cells Ptr) (p : SlabPool) (h : Heap Ptr)
    (out : Ptr × SlabPool × Heap Ptr) : Type 0 where
  pub block : out.0 ≡ b
  pub addr : out.1.addr ≡ p.addr
  pub lists : IsPool out.2 out.1 free ((b, p.addr) ∷ used)
  pub same : SameOutside ((b, p.addr) ∷ free ++ used) h out.2

-- The writes to the block itself, after its neighbours are linked.
abbrev placed : Heap Ptr → Ptr → Ptr → Heap Ptr
placed h b u = modify (modify h b (with_next u)) b (with_prev null)

placed-ne : (h : Heap Ptr) (b u a : Ptr) → (a == b) ≡ false → placed h b u a ≡ h a
placed-ne h b u a e =
    modify-ne (modify h b (with_next u)) b a (with_prev null) e ∙ modify-ne h b a (with_next u) e

Seg-placed :
    (h : Heap Ptr) (b u pre : Ptr) (xs : Cells Ptr)
    → Seg h pre null xs
    → has b xs ≡ false
    → Seg (placed h b u) pre null xs
Seg-placed h b u pre xs s out =
    Seg-modify (modify h b (with_next u)) pre null b (with_prev null) xs
      (Seg-modify h pre null b (with_next u) xs s out) out

pub take_block-Taken :
    {h : Heap Ptr} {p : SlabPool} (b : Ptr) (v : Ptr) (free used : Cells Ptr)
    → IsPool h p ((b, v) ∷ free) used
    → Returns (Taken b free used p h) (take_block p h)
unfolding take_block
take_block-Taken {h} {p} b v free used is =
    let (live, at, rest) = is.free_chain in
    let (b_free, d) = is.free_distinct in
    let b_used = is.apart b (ground arith) in
    let free_used : Apart free used = λ a i. is.apart a (ground arith) in
    let f = first free null in
    let u = first used null in
    let owned : Heap Ptr → Heap Ptr = λ g. modify g b (with_val p.addr) in
    rw (is.free_head, is.used_head, load-ok h b live (node v null f) at)
      (bind (link_back-Seg h b null free rest d) λ g₁ (s₁, o₁).
        let at₁ = o₁ b b_free ∙ at in
        let used₁ =
          frame_apart h g₁ null null free used o₁ (λ a i. ground (arith, free_used a))
            is.used_chain in
        let at₂ = modify-val_self g₁ b live (node v null f) at₁ p.addr in
        rw (set_val-ok g₁ b live (node v null f) at₁ p.addr) (
          bind
            (link_back-Seg (owned g₁) null b used
              (Seg-modify g₁ null null b (with_val p.addr) used used₁ b_used) is.used_distinct)
            λ g₂ (s₂, o₂).
              let at₃ = o₂ b b_used ∙ at₂ in
              let n₃ = node p.addr null f in
              let free₂ =
                frame_apart (owned g₁) g₂ null null used free o₂ free_used
                  (Seg-modify g₁ null null b (with_val p.addr) free s₁ b_free) in
              rw
                (
                  set_next-ok g₂ b live n₃ at₃ u,
                  set_prev-ok (modify g₂ b (with_next u)) b live (with_next u n₃)
                      (modify-next_self g₂ b live n₃ at₃ u) null,
                )
                (returns (record {
                  block = refl;
                  addr = refl;
                  lists = record {
                    free_chain = Seg-placed g₂ b u null free free₂ b_free;
                    used_chain = (
                      live,
                      relink-next g₂ b live n₃ at₃ null u,
                      Seg-placed g₂ b u b used s₂ b_used,
                    );
                    free_head = refl;
                    used_head = refl;
                    owned = (refl, is.owned);
                    free_distinct = d;
                    used_distinct = (b_used, is.used_distinct);
                    apart = λ a i. ground (arith, free_used a, b_free);
                  };
                  same = λ a o.
                      let (far, apart) = not-has-append a ((b, p.addr) ∷ free) used o in
                      let ne : (a == b) ≡ false = ground arith in
                      placed-ne g₂ b u a ne
                      ∙ o₂ a apart
                      ∙ modify-ne g₁ b a (with_val p.addr) ne
                      ∙ o₁ a (ground arith);
                }))))
