-- ===== src/Circle/Add.antt =====
-- `add_event` of src/base/base_circle.cpp.
use record_lib.Base.{◌≡◌, refl, false, true, some, [], ◌∷◌, arith, Returns, returns, ◌∙◌}
use record_lib.Links.{Ptr, null, node, modify, with_prev, with_next, with_val}
use record_lib.Links.Seg.{Cells, has, first, Seg-modify, Seg-set_first, modify-ne}
use record_lib.Links.Writes.{
  load-ok, set_prev-ok, set_next-ok, set_val-ok, not_null, modify-next_self, modify-val_self,
}
use record_lib.Circle.{IoEvent, Circle, set_linked, add_event}
use record_lib.Circle.Inv.{IsEvents, IsOut}

abbrev pub linked : IoEvent → IoEvent
linked v = record v { linked = true }

-- The event stands in front of the others.
abbrev pub Added : Ptr → IoEvent → Cells IoEvent → Circle → Circle → Type 0
Added p v xs s t = IsEvents t ((p, linked v) ∷ xs) × (t.cursor ≡ s.cursor)

-- Adding an event that is outside of a well-formed list, with its pointers cleared, raises no
-- fault: the list is well-formed with the event in front, which is marked as linked, and the
-- traversal's cursor is unchanged.
pub add_event-Added :
    {c : Circle} (p : Ptr) (v : IoEvent) (xs : Cells IoEvent)
    → IsEvents c xs
    → IsOut c p v
    → has p xs ≡ false
    → Returns (Added p v xs c) (add_event p c)
unfolding add_event set_linked
add_event-Added {c} p v [] is out apart =
    rw
      (
        is.head,
        load-ok c.heap p out.live (node v null null) out.at,
        set_val-ok c.heap p out.live (node v null null) out.at (linked v),
      )
      (returns (
        record {
          chain = (
            out.live,
            modify-val_self c.heap p out.live (node v null null) out.at (linked v),
            tt,
          );
          distinct = (refl, tt);
          head = refl;
          linked = (refl, tt);
        },
        refl,
      ))
add_event-Added {c} p v ((q, w) ∷ xs) is out apart =
    let (live_q, at_q, rest) = is.chain in
    let h₁ = modify c.heap p (with_next q) in
    let h₂ = modify h₁ q (with_prev p) in
    let h₃ = modify h₂ p (with_val (linked v)) in
    let at₁ : h₁ p ≡ some (node v null q) =
      modify-next_self c.heap p out.live (node v null null) out.at q in
    let at₁_q : h₁ q ≡ some (node w null (first xs null)) =
      modify-ne c.heap p q (with_next q) (ground arith) ∙ at_q in
    let at₂ : h₂ p ≡ some (node v null q) = modify-ne h₁ q p (with_prev p) (ground arith) ∙ at₁ in
    rw
      (
        is.head,
        not_null q live_q,
        set_next-ok c.heap p out.live (node v null null) out.at q,
        set_prev-ok h₁ q live_q (node w null (first xs null)) at₁_q p,
        load-ok h₂ p out.live (node v null q) at₂,
        set_val-ok h₂ p out.live (node v null q) at₂ (linked v),
      )
      (returns (
        record {
          chain = (
            out.live,
            modify-val_self h₂ p out.live (node v null q) at₂ (linked v),
            Seg-modify h₂ p null p (with_val (linked v)) ((q, w) ∷ xs)
                (Seg-set_first h₁ null null p q w xs
                  (Seg-modify c.heap null null p (with_next q) ((q, w) ∷ xs) is.chain apart)
                  is.distinct)
                apart,
          );
          distinct = (apart, is.distinct);
          head = refl;
          linked = (refl, is.linked);
        },
        refl,
      ))
