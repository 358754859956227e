-- ===== src/Circle/Remove.antt =====
-- `remove_event` of src/base/base_circle.cpp, of an event in the list and of one outside of it.
use record_lib.Base.{
  ◌≡◌, ◌≢◌, refl, sym, ◌∙◌, mono, Bool, true, false, some, [], ◌∷◌, ◌++◌, arith, Returns, returns,
  bind, ◌==◌, if◌then◌else◌,
}
use record_lib.Links.{Ptr, null, node, Heap, modify, with_prev, with_next, with_val, link_back}
use record_lib.Links.Seg.{
  Cells, has, first, last, Distinct, Seg, SameOutside, Seg-holds, Seg-modify, Seg-set_last,
  Seg-append, Seg-front, Seg-back, Distinct-append, not-has-append, last-mem, modify-ne, ne_of_mem,
}
use record_lib.Links.Writes.{
  load-ok, set_prev-ok, set_next-ok, set_val-ok, not_null, modify-prev_self, modify-next_self,
  modify-val_self,
}
use record_lib.Links.Back.{frame_apart, link_back-Seg}
use record_lib.TdList.Remove.{first-append, Distinct-Apart}
use record_lib.Circle.{
  IoEvent, Circle, set_linked, cursor_past, unlink_before, clear_event, remove_event,
}
use record_lib.Circle.Inv.{IsEvents, IsOut, AllLinked, IsChain, IsEvents-IsChain}

abbrev pub unlinked : IoEvent → IoEvent
unlinked v = record v { linked = false }

-- The writes of `clear_event`.
abbrev cleared : Heap IoEvent → Ptr → IoEvent → Heap IoEvent
cleared h p v =
    modify (modify (modify h p (with_prev null)) p (with_next null)) p (with_val (unlinked v))

module _ (c : Circle) (p : Ptr) (v : IoEvent) (q r : Ptr) (live : p ≢ null)
    (at : c.heap p ≡ some (node v q r)) where
  clear_event-cleared : clear_event p c ≡ some (record c { heap = cleared c.heap p v })
  unfolding clear_event set_linked
  clear_event-cleared =
      let at_prev = modify-prev_self c.heap p live (node v q r) at null in
      let at_next =
        modify-next_self (modify c.heap p (with_prev null)) p live (node v null r) at_prev null in
      rw
        (
          set_prev-ok c.heap p live (node v q r) at null,
          set_next-ok (modify c.heap p (with_prev null)) p live (node v null r) at_prev null,
          load-ok (modify (modify c.heap p (with_prev null)) p (with_next null)) p live
              (node v null null) at_next,
          set_val-ok (modify (modify c.heap p (with_prev null)) p (with_next null)) p live
              (node v null null) at_next (unlinked v),
        )
        refl

  cleared_self : cleared c.heap p v p ≡ some (node (unlinked v) null null)
  cleared_self =
      let at_prev = modify-prev_self c.heap p live (node v q r) at null in
      let at_next =
        modify-next_self (modify c.heap p (with_prev null)) p live (node v null r) at_prev null in
      modify-val_self (modify (modify c.heap p (with_prev null)) p (with_next null)) p live
        (node v null null) at_next (unlinked v)

cleared-ne : (h : Heap IoEvent) (p a : Ptr) (v : IoEvent) → (a == p) ≡ false → cleared h p v a ≡ h a
cleared-ne h p a v e =
    modify-ne (modify (modify h p (with_prev null)) p (with_next null)) p a (with_val (unlinked v))
      e
    ∙ modify-ne (modify h p (with_prev null)) p a (with_next null) e
    ∙ modify-ne h p a (with_prev null) e

Seg-cleared :
    (h : Heap IoEvent) (pre stop p : Ptr) (v : IoEvent) (xs : Cells IoEvent)
    → Seg h pre stop xs
    → has p xs ≡ false
    → Seg (cleared h p v) pre stop xs
Seg-cleared h pre stop p v xs s out =
    Seg-modify (modify (modify h p (with_prev null)) p (with_next null)) pre stop p
      (with_val (unlinked v)) xs
      (Seg-modify (modify h p (with_prev null)) pre stop p (with_next null) xs
        (Seg-modify h pre stop p (with_prev null) xs s out) out)
      out

-- Removing an event that is not in a well-formed list, with its pointers cleared as a removal
-- leaves them, raises no fault and leaves an empty list, although the events that were in it are
-- still linked to each other in memory.
pub remove_event-unlinked :
    {c : Circle} {xs : Cells IoEvent} {p : Ptr} {v : IoEvent}
    → IsEvents c xs
    → IsOut c p v
    → has p xs ≡ false
    → Returns (λ c'. IsEvents c' [] × Seg c'.heap null null xs) (remove_event p c)
unfolding remove_event unlink_before link_back
remove_event-unlinked {c} {xs} {p} {v} is out apart =
    rw
      (
        load-ok c.heap p out.live (node v null null) out.at,
        load-ok c.heap p out.live (node v null null) out.at,
        clear_event-cleared (record c { header = null; cursor = cursor_past p null c.cursor }) p v
            null null out.live out.at,
      )
      (returns (
        record { chain = tt; distinct = tt; head = refl; linked = tt },
        Seg-cleared c.heap null null p v xs is.chain apart,
      ))

-- So the list loses its chain; the other events and the cursor are not touched.
pub remove_event-Stranded :
    {whole : Bool} {c : Circle} (xs : Cells IoEvent) (p : Ptr) (v : IoEvent)
    → IsChain whole c xs
    → IsOut c p v
    → has p xs ≡ false
    → Returns
        (λ t.
          IsChain false t xs
          × (t.cursor ≡ cursor_past p null c.cursor)
          × ((a : Ptr) → (a == p) ≡ false → t.heap a ≡ c.heap a))
        (remove_event p c)
unfolding remove_event unlink_before link_back
remove_event-Stranded {c = c} xs p v is out apart =
    rw
      (
        load-ok c.heap p out.live (node v null null) out.at,
        load-ok c.heap p out.live (node v null null) out.at,
        clear_event-cleared (record c { header = null; cursor = cursor_past p null c.cursor }) p v
            null null out.live out.at,
      )
      (returns (
        record {
          chain = Seg-cleared c.heap null null p v xs is.chain apart;
          distinct = is.distinct;
          head = λ e. absurd (ground arith);
          linked = is.linked;
        },
        refl,
        λ a ne. cleared-ne c.heap p a v ne,
      ))

module _ (xs : Cells IoEvent) (p : Ptr) (v : IoEvent) (ys : Cells IoEvent) where
  -- After `unlink_before`: the front skips the event.
  record Skipped (whole : Bool) (s t : Circle) : Type 0 where
    front : Seg t.heap null (first ys null) xs
    back : Seg t.heap p null ys
    here : t.heap p ≡ some (node v (last null xs) (first ys null))
    head : whole ≡ true → t.header ≡ first xs (first ys null)
    cursor : t.cursor ≡ s.cursor
    same : SameOutside (xs ++ (p, v) ∷ ys) s.heap t.heap

  -- The event is out of the chain, and its pointers are cleared.
  abbrev pub Unchained : Bool → Circle → Circle → Type 0
  Unchained whole s t =
      IsChain whole t (xs ++ ys)
      × IsOut t p (unlinked v)
      × (t.cursor ≡ (if s.cursor == p then first ys null else s.cursor))
      × SameOutside (xs ++ (p, v) ∷ ys) s.heap t.heap

  -- The event is out of the list, and its pointers are cleared.
  abbrev pub Removed : Circle → Circle → Type 0
  Removed s t =
      IsEvents t (xs ++ ys)
      × IsOut t p (unlinked v)
      × (t.cursor ≡ (if s.cursor == p then first ys null else s.cursor))
      × SameOutside (xs ++ (p, v) ∷ ys) s.heap t.heap

unlink_before-Skipped :
    {whole : Bool} {s : Circle} (xs : Cells IoEvent) (p : Ptr) (v : IoEvent) (ys : Cells IoEvent)
    → Seg s.heap null null (xs ++ (p, v) ∷ ys)
    → Distinct (xs ++ (p, v) ∷ ys)
    → (whole ≡ true → s.header ≡ first (xs ++ (p, v) ∷ ys) null)
    → Returns (Skipped xs p v ys whole s) (unlink_before (last null xs) (first ys null) s)
unfolding unlink_before
unlink_before-Skipped [] p v ys (live, at, rest) distinct head = returns (record {
  front = tt;
  back = rest;
  here = at;
  head = λ e. refl;
  cursor = refl;
  same = λ a o. refl;
})
unlink_before-Skipped {s = s} (c ∷ xs) p v ys chain distinct head =
    let t = last null (c ∷ xs) in
    let q = first ys null in
    let ds = Distinct-Apart (c ∷ xs) p v ys distinct in
    let front = Seg-front s.heap null null (c ∷ xs) ((p, v) ∷ ys) chain in
    let (live, at, rest) = Seg-back s.heap null null (c ∷ xs) ((p, v) ∷ ys) chain in
    let in_front = last-mem null c xs in
    let (n, live_t, at_t) = Seg-holds s.heap null p (c ∷ xs) t front in_front in
    let t_ne = ne_of_mem p t (c ∷ xs) ds.not_front in_front in
    rw (not_null t live_t, set_next-ok s.heap t live_t n at_t q)
      (returns (record {
        front = Seg-set_last s.heap null p q c xs front ds.front;
        back = Seg-modify s.heap p null t (with_next q) ys rest (ds.apart t in_front);
        here = modify-ne s.heap t p (with_next q) t_ne ∙ at;
        head = head;
        cursor = refl;
        same = λ a o.
            modify-ne s.heap t a (with_next q)
              (ne_of_mem a t (c ∷ xs) (not-has-append a (c ∷ xs) ((p, v) ∷ ys) o).0 in_front);
      }))

AllLinked-without :
    (xs : Cells IoEvent) (p : Ptr) (v : IoEvent) (ys : Cells IoEvent)
    → AllLinked (xs ++ (p, v) ∷ ys)
    → AllLinked (xs ++ ys)
AllLinked-without [] p v ys (e, all) = all
AllLinked-without (c ∷ xs) p v ys (e, all) = (e, AllLinked-without xs p v ys all)

-- The test for NULL in front of the step is not needed: no event has that address.
cursor_past-if :
    (p q cursor : Ptr) → p ≢ null → cursor_past p q cursor ≡ (if cursor == p then q else cursor)
cursor_past-if p q cursor live = ground arith

-- The removal of an event from a chain that the list may have lost.
pub remove_event-Unchained :
    {whole : Bool} {c : Circle} (xs : Cells IoEvent) (p : Ptr) (v : IoEvent) (ys : Cells IoEvent)
    → IsChain whole c (xs ++ (p, v) ∷ ys)
    → Returns (Unchained xs p v ys whole c) (remove_event p c)
unfolding remove_event
remove_event-Unchained {c = c} xs p v ys is =
    let ds = Distinct-Apart xs p v ys is.distinct in
    let (live, at, rest) = Seg-back c.heap null null xs ((p, v) ∷ ys) is.chain in
    let pre = last null xs in
    let q = first ys null in
    rw (load-ok c.heap p live (node v pre q) at) (
      bind (unlink_before-Skipped xs p v ys is.chain is.distinct is.head) λ t sk.
        rw (load-ok t.heap p live (node v pre q) sk.here) (
          bind (link_back-Seg t.heap p pre ys sk.back ds.back) λ h (linked, same).
            let here : h p ≡ some (node v pre q) = same p ds.not_back ∙ sk.here in
            let front : Seg h null q xs =
              frame_apart t.heap h null q ys xs same ds.apart sk.front in
            rw (clear_event-cleared (record t { heap = h }) p v pre q live here) (
              returns (
                record {
                  chain =
                      Seg-append (cleared h p v) null null xs ys
                        (Seg-cleared h null q p v xs front ds.not_front)
                        (Seg-cleared h pre null p v ys linked ds.not_back);
                  distinct = Distinct-append xs ys ds.front ds.back ds.apart;
                  head = λ e. sk.head e ∙ sym (first-append xs ys null);
                  linked = AllLinked-without xs p v ys is.linked;
                },
                record {
                  live = live;
                  at = cleared_self (record t { heap = h }) p v pre q live here;
                },
                sk.cursor ∙ cursor_past-if p q c.cursor live,
                λ a o.
                    let far = (not-has-append a xs ((p, v) ∷ ys) o).1 in
                    cleared-ne h p a v (ground arith) ∙ same a (ground arith) ∙ sk.same a o,
              ))))

-- Removing an event of a well-formed list, wherever it stands, raises no fault: the others stay in
-- their order and well-formed, the event is unlinked with its pointers cleared, the traversal's
-- cursor is moved to the next event if it stood on this one and stays otherwise, and memory
-- outside the list is unchanged.
pub remove_event-Removed :
    {c : Circle} (xs : Cells IoEvent) (p : Ptr) (v : IoEvent) (ys : Cells IoEvent)
    → IsEvents c (xs ++ (p, v) ∷ ys)
    → Returns (Removed xs p v ys c) (remove_event p c)
remove_event-Removed xs p v ys is =
    mono (remove_event-Unchained xs p v ys (IsEvents-IsChain true is)) λ t (is', out, past, same). (
      record {
        chain = is'.chain;
        distinct = is'.distinct;
        head = is'.head refl;
        linked = is'.linked;
      },
      out,
      past,
      same,
    )
