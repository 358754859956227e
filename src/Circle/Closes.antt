-- ===== src/Circle/Closes.antt =====
-- What the removal of a connection's two events, src/base/base_connect.cpp, does to a traversal that
-- stands in front of the cursor.
use mathlib.Core.List.{append_assoc}
use mathlib.Core.Path.{subst}
use record_lib.Base.{
  ℕ, ◌≤◌, ◌≡◌, ◌≢◌, inl, inr, refl, sym, ap, ◌∙◌, Bool, false, true, [], ◌∷◌, ◌++◌, arith, Returns,
  bind, mono, ◌==◌, if◌then◌else◌, length, Bool-cases, eq_refl,
}
use record_lib.Links.{Ptr, null}
use record_lib.Links.Seg.{Cells, has, has-append, not-has-append, first, Distinct-apart}
use record_lib.TdList.Remove.{Distinct-Apart}
use record_lib.Circle.{IoEvent, Circle, remove_event, cursor_past}
use record_lib.Circle.Inv.{IsChain, IsOut}
use record_lib.Circle.Remove.{remove_event-Unchained, remove_event-Stranded}
use record_lib.Circle.Traversal.{Connect, remove_events}

abbrev pub without : Ptr → Cells IoEvent → Cells IoEvent
without w [] = []
without w ((q, u) ∷ xs) = if w == q then xs else (q, u) ∷ without w xs

without-absent : (w : Ptr) (xs : Cells IoEvent) → has w xs ≡ false → without w xs ≡ xs
without-absent w [] out = refl
without-absent w ((q, u) ∷ xs) out =
    let e : (w == q) ≡ false = ground arith in rw (e, without-absent w xs (ground arith)) refl

length-without : (w : Ptr) (xs : Cells IoEvent) → length (without w xs) ≤ length xs
length-without w [] = omega arith
length-without w ((q, u) ∷ xs) = let ih = length-without w xs in ground arith

has-without : (a w : Ptr) (xs : Cells IoEvent) → (a == w) ≡ false → has a (without w xs) ≡ has a xs
has-without a w [] ne = refl
has-without a w ((q, u) ∷ xs) ne = let ih = has-without a w xs ne in ground arith

without-append :
    (w : Ptr) (xs ys : Cells IoEvent) → has w xs ≡ false → without w (xs ++ ys) ≡ xs ++ without w ys
without-append w [] ys out = refl
without-append w ((q, u) ∷ xs) ys out =
    let e : (w == q) ≡ false = ground arith in rw (e, without-append w xs ys (ground arith)) refl

-- Where an event stands in a chain.
pub record Split (w : Ptr) (xs : Cells IoEvent) : Type 0 where
  before : Cells IoEvent
  val : IoEvent
  after : Cells IoEvent
  whole : xs ≡ before ++ (w, val) ∷ after
  left : without w xs ≡ before ++ after

has-Split : (w : Ptr) (xs : Cells IoEvent) → has w xs ≡ true → Split w xs
has-Split w [] there = absurd (ground arith)
has-Split w ((q, u) ∷ xs) there = elim (Bool-cases (w == q)) [
  | inl e ↦
      let same : w ≡ q = ground arith in
      record { before = []; val = u; after = xs; whole = rw same refl; left = rw e refl }
  | inr e ↦
      let s = has-Split w xs (ground arith) in
      record {
        before = (q, u) ∷ s.before;
        val = s.val;
        after = s.after;
        whole = ap (λ l. (q, u) ∷ l) s.whole;
        left = rw (e, s.left) refl;
      }
]

-- The cursor stands on the first of `ys`, which are at most `n`, behind the events `xs`.
pub record Walks (whole : Bool) (n : ℕ) (c : Circle) (xs ys : Cells IoEvent) : Type 0 where
  pub chain : IsChain whole c (xs ++ ys)
  pub cursor : c.cursor ≡ first ys null
  pub le : length ys ≤ n

-- An event in the chain; or outside of it with its pointers cleared, where the list may be lost.
pub data Placed (whole : Bool) (c : Circle) (zs : Cells IoEvent) (w : Ptr) : Type 0 where
  linked : has w zs ≡ true → Placed whole c zs w
  outside : (v : IoEvent) → whole ≡ false → IsOut c w v → has w zs ≡ false → Placed whole c zs w

-- After the removal of an event: it is gone from both parts, the cursor keeps up, and the memory outside
-- of the chain is what it was, the event's own excepted.
abbrev Without : Bool → ℕ → (w : Ptr) → (xs ys : Cells IoEvent) → Circle → Circle → Type 0
Without whole n w xs ys s t =
    Walks whole n t (without w xs) (without w ys)
    × ((a : Ptr) → (a == w) ≡ false → has a (xs ++ ys) ≡ false → t.heap a ≡ s.heap a)

first_other :
    (w : Ptr) (ys : Cells IoEvent) → w ≢ null → has w ys ≡ false → (first ys null == w) ≡ false
first_other w [] live out = ground arith
first_other w ((q, u) ∷ ys) live out = ground arith

-- The cursor on the first event follows the removal of an event.
first-without :
    (w : Ptr) (v : IoEvent) (before after : Cells IoEvent)
    → has w before ≡ false
    → (if first (before ++ (w, v) ∷ after) null == w
        then first after null
        else first (before ++ (w, v) ∷ after) null)
      ≡ first (before ++ after) null
first-without w v [] after out = rw (eq_refl w) refl
first-without w v ((q, u) ∷ before) after out = let e : (q == w) ≡ false = ground arith in rw e refl

-- The cursor of a state, in terms of the one before.
follow :
    (cursor at w next : Ptr)
    → cursor ≡ at
    → (if cursor == w then next else cursor) ≡ (if at == w then next else at)
follow cursor at w next e = ap (λ k. if k == w then next else k) e

remove_front :
    {whole : Bool} {n : ℕ} {c : Circle} (w : Ptr) (xs ys : Cells IoEvent)
    → Walks whole n c xs ys
    → has w xs ≡ true
    → Returns (Without whole n w xs ys c) (remove_event w c)
remove_front {whole} {n} {c} w xs ys walks there =
    let s = has-Split w xs there in
    let e : xs ++ ys ≡ s.before ++ (w, s.val) ∷ (s.after ++ ys) =
      ap (λ l. l ++ ys) s.whole ∙ append_assoc s.before ((w, s.val) ∷ s.after) ys in
    let apart : has w ys ≡ false = Distinct-apart w xs ys walks.chain.distinct there in
    mono
      (remove_event-Unchained s.before w s.val (s.after ++ ys)
        (subst (IsChain whole c) e walks.chain))
      λ t (is, out, past, same). (
        record {
          chain =
              subst (IsChain whole t)
                (sym (append_assoc s.before s.after ys)
                  ∙ ap (λ l. l ++ ys) (sym s.left)
                  ∙ ap (λ l. without w xs ++ l) (sym (without-absent w ys apart)))
                is;
          cursor =
              past
              ∙ follow c.cursor (first ys null) w (first (s.after ++ ys) null) walks.cursor
              ∙ rw (first_other w ys out.live apart) refl
              ∙ ap (λ l. first l null) (sym (without-absent w ys apart));
          le = omega (arith, length-without w ys, walks.le);
        },
        λ a ne away. same a (subst (λ l. has a l ≡ false) e away),
      )

remove_back :
    {whole : Bool} {n : ℕ} {c : Circle} (w : Ptr) (xs ys : Cells IoEvent)
    → Walks whole n c xs ys
    → has w xs ≡ false
    → has w ys ≡ true
    → Returns (Without whole n w xs ys c) (remove_event w c)
remove_back {whole} {n} {c} w xs ys walks out there =
    let s = has-Split w ys there in
    let e : xs ++ ys ≡ (xs ++ s.before) ++ (w, s.val) ∷ s.after =
      ap (λ l. xs ++ l) s.whole ∙ sym (append_assoc xs s.before ((w, s.val) ∷ s.after)) in
    let is = subst (IsChain whole c) e walks.chain in
    let ds = Distinct-Apart (xs ++ s.before) w s.val s.after is.distinct in
    let clear = (not-has-append w xs s.before ds.not_front).1 in
    mono (remove_event-Unchained (xs ++ s.before) w s.val s.after is) λ t (is', gone, past, same). (
      record {
        chain =
            subst (IsChain whole t)
              (append_assoc xs s.before s.after
                ∙ ap (λ l. xs ++ l) (sym s.left)
                ∙ ap (λ l. l ++ without w ys) (sym (without-absent w xs out)))
              is';
        cursor =
            past
            ∙ follow c.cursor (first (s.before ++ (w, s.val) ∷ s.after) null) w (first s.after null)
                (walks.cursor ∙ ap (λ l. first l null) s.whole)
            ∙ first-without w s.val s.before s.after clear
            ∙ ap (λ l. first l null) (sym s.left);
        le = omega (arith, length-without w ys, walks.le);
      },
      λ a ne away. same a (subst (λ l. has a l ≡ false) e away),
    )

remove_out :
    {n : ℕ} {c : Circle} (w : Ptr) (v : IoEvent) (xs ys : Cells IoEvent)
    → Walks false n c xs ys
    → IsOut c w v
    → has w (xs ++ ys) ≡ false
    → Returns (Without false n w xs ys c) (remove_event w c)
remove_out {n} {c} w v xs ys walks out apart =
    let (in_front, behind) = not-has-append w xs ys apart in
    mono (remove_event-Stranded (xs ++ ys) w v walks.chain out apart) λ t (is, past, same). (
      record {
        chain =
            subst (IsChain false t)
              (ap (λ l. l ++ ys) (sym (without-absent w xs in_front))
                ∙ ap (λ l. without w xs ++ l) (sym (without-absent w ys behind)))
              is;
        cursor =
            past
            ∙ ap (λ k. cursor_past w null k) walks.cursor
            ∙ rw (first_other w ys out.live behind) (ground arith)
            ∙ ap (λ l. first l null) (sym (without-absent w ys behind));
        le = omega (arith, length-without w ys, walks.le);
      },
      λ a ne away. same a ne,
    )

remove-Without :
    {whole : Bool} {n : ℕ} {c : Circle} (w : Ptr) (xs ys : Cells IoEvent)
    → Walks whole n c xs ys
    → Placed whole c (xs ++ ys) w
    → Returns (Without whole n w xs ys c) (remove_event w c)
remove-Without w xs ys walks (linked there) = elim (Bool-cases (has w xs)) [
  | inl front ↦ remove_front w xs ys walks front
  | inr e ↦ let h = has-append w xs ys in remove_back w xs ys walks e (ground arith)
]
remove-Without {whole} {n} {c} w xs ys walks (outside v lost out apart) =
    subst (λ b. Walks b n c xs ys → Returns (Without b n w xs ys c) (remove_event w c)) (sym lost)
      (λ k. remove_out w v xs ys k out apart) walks

-- The other event of the connection is where it was.
Placed-kept :
    {whole : Bool} {n : ℕ} {s t : Circle} (w a : Ptr) (xs ys : Cells IoEvent)
    → (a == w) ≡ false
    → Without whole n w xs ys s t
    → Placed whole s (xs ++ ys) a
    → Placed whole t (without w xs ++ without w ys) a
Placed-kept w a xs ys ne (walks, same) (linked there) =
    let h = has-append a xs ys in
    let h' = has-append a (without w xs) (without w ys) in
    let ex = has-without a w xs ne in let ey = has-without a w ys ne in linked (ground arith)
Placed-kept w a xs ys ne (walks, same) (outside v lost out apart) =
    let h = has-append a xs ys in
    let h' = has-append a (without w xs) (without w ys) in
    let ex = has-without a w xs ne in
    let ey = has-without a w ys ne in
    outside v lost (record { live = out.live; at = same a ne apart ∙ out.at }) (ground arith)

-- Both events are taken out, and the cursor keeps up.
pub remove_events-Walks :
    {whole : Bool} {n : ℕ} {c : Circle} (m : Connect) (xs ys : Cells IoEvent)
    → m.pc ≡ true
    → (m.wrev == m.rdev) ≡ false
    → Walks whole n c xs ys
    → Placed whole c (xs ++ ys) m.rdev
    → Placed whole c (xs ++ ys) m.wrev
    → Returns
        (λ t.
          Walks whole n t (without m.wrev (without m.rdev xs)) (without m.wrev (without m.rdev ys)))
        (remove_events m c)
unfolding remove_events
remove_events-Walks m xs ys pc ne walks r w = rw pc (
    bind (remove-Without m.rdev xs ys walks r) λ t kept.
      mono
        (remove-Without m.wrev (without m.rdev xs) (without m.rdev ys) kept.0
          (Placed-kept m.rdev m.wrev xs ys ne kept w))
        λ t' kept'. kept'.0)
