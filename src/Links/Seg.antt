-- ===== src/Links/Seg.antt =====
-- Doubly linked segments of a heap, and what a write does to them.
use record_lib.Base.{
  ◌≡◌, ◌≢◌, refl, ◌∙◌, inl, inr, Bool, true, false, ◌||◌, some, List, [], ◌∷◌, ◌++◌, arith, ◌==◌,
  Bool-cases,
}
use record_lib.Links.{Ptr, null, Node, node, Heap, modify, with_prev, with_next}

-- What a list stands for: address and payload of each node, in order.
abbrev pub Cells : Type 0 → Type 0
Cells A = List (Ptr × A)

module _ {A : Type 0} where
  abbrev pub has : Ptr → Cells A → Bool
  has a [] = false
  has a ((p, _) ∷ xs) = (a == p) || has a xs

  -- The address of the first cell, or `stop`.
  abbrev pub first : Cells A → Ptr → Ptr
  first [] stop = stop
  first ((p, _) ∷ xs) stop = p

  -- The address of the last cell, or `pre`.
  abbrev pub last : Ptr → Cells A → Ptr
  last pre [] = pre
  last pre ((p, _) ∷ xs) = last p xs

  abbrev pub Distinct : Cells A → Type 0
  Distinct [] = Unit
  Distinct ((p, _) ∷ xs) = (has p xs ≡ false) × Distinct xs

  -- The cells lie in the heap, linked both ways between `pre` and `stop`.
  abbrev pub Seg : Heap A → Ptr → Ptr → Cells A → Type 0
  Seg h pre stop [] = Unit
  Seg h pre stop ((p, v) ∷ xs) =
      (p ≢ null) × (h p ≡ some (node v pre (first xs stop))) × Seg h p stop xs

  -- `g` and `h` agree on the cells.
  abbrev pub Same : Cells A → Heap A → Heap A → Type 0
  Same xs h g = (a : Ptr) → has a xs ≡ true → g a ≡ h a

  -- `g` and `h` agree outside the cells.
  abbrev pub SameOutside : Cells A → Heap A → Heap A → Type 0
  SameOutside xs h g = (a : Ptr) → has a xs ≡ false → g a ≡ h a

  pub frame :
      (h g : Heap A) (pre stop : Ptr) (xs : Cells A)
      → Seg h pre stop xs
      → Same xs h g
      → Seg g pre stop xs
  frame h g pre stop [] s same = tt
  frame h g pre stop ((p, v) ∷ xs) s same =
      (s.0, ground (arith, same p), frame h g p stop xs s.2 (λ a i. same a (ground arith)))

  pub has-append : (a : Ptr) (xs ys : Cells A) → has a (xs ++ ys) ≡ (has a xs || has a ys)
  has-append a [] ys = refl
  has-append a ((p, v) ∷ xs) ys = ground (arith, has-append a xs ys)

  pub not-has-append :
      (a : Ptr) (xs ys : Cells A)
      → has a (xs ++ ys) ≡ false
      → (has a xs ≡ false) × (has a ys ≡ false)
  not-has-append a xs ys o = ground (arith, has-append a xs ys)

  -- A single cell behind distinct ones.
  pub Distinct-snoc :
      (xs : Cells A) (p : Ptr) (v : A)
      → Distinct xs
      → has p xs ≡ false
      → Distinct (xs ++ (p, v) ∷ [])
  Distinct-snoc [] p v d out = (refl, tt)
  Distinct-snoc ((q, w) ∷ xs) p v d out =
      (ground (arith, has-append q xs ((p, v) ∷ [])), Distinct-snoc xs p v d.1 (ground arith))

  pub Distinct-append :
      (xs ys : Cells A)
      → Distinct xs
      → Distinct ys
      → ((a : Ptr) → has a xs ≡ true → has a ys ≡ false)
      → Distinct (xs ++ ys)
  Distinct-append [] ys d e apart = e
  Distinct-append ((p, v) ∷ xs) ys d e apart = (
    ground (arith, has-append p xs ys, apart p),
    Distinct-append xs ys d.1 e (λ a i. apart a (ground arith)),
  )

  pub Distinct-front : (xs ys : Cells A) → Distinct (xs ++ ys) → Distinct xs
  Distinct-front [] ys d = tt
  Distinct-front ((p, v) ∷ xs) ys d = (ground (arith, has-append p xs ys), Distinct-front xs ys d.1)

  pub Distinct-back : (xs ys : Cells A) → Distinct (xs ++ ys) → Distinct ys
  Distinct-back [] ys d = d
  Distinct-back ((p, v) ∷ xs) ys d = Distinct-back xs ys d.1

  pub Distinct-apart :
      (a : Ptr) (xs ys : Cells A) → Distinct (xs ++ ys) → has a xs ≡ true → has a ys ≡ false
  Distinct-apart a [] ys d i = ground arith
  Distinct-apart a ((p, v) ∷ xs) ys d i =
      ground (arith, has-append p xs ys, Distinct-apart a xs ys d.1)

  pub last-mem : (pre : Ptr) (c : Ptr × A) (xs : Cells A) → has (last pre (c ∷ xs)) (c ∷ xs) ≡ true
  last-mem pre (p, v) [] = ground arith
  last-mem pre (p, v) ((q, w) ∷ xs) = ground (arith, last-mem p (q, w) xs)

  pub last-append : (pre : Ptr) (xs ys : Cells A) → last pre (xs ++ ys) ≡ last (last pre xs) ys
  last-append pre [] ys = refl
  last-append pre ((p, v) ∷ xs) ys = last-append p xs ys

  pub Seg-append :
      (h : Heap A) (pre stop : Ptr) (xs ys : Cells A)
      → Seg h pre (first ys stop) xs
      → Seg h (last pre xs) stop ys
      → Seg h pre stop (xs ++ ys)
  Seg-append h pre stop [] ys s t = t
  Seg-append h pre stop ((p, v) ∷ []) ys s t = (s.0, s.1, t)
  Seg-append h pre stop ((p, v) ∷ (q, w) ∷ xs) ys s t =
      (s.0, s.1, Seg-append h p stop ((q, w) ∷ xs) ys s.2 t)

  pub Seg-front :
      (h : Heap A) (pre stop : Ptr) (xs ys : Cells A)
      → Seg h pre stop (xs ++ ys)
      → Seg h pre (first ys stop) xs
  Seg-front h pre stop [] ys s = tt
  Seg-front h pre stop ((p, v) ∷ []) ys s = (s.0, s.1, tt)
  Seg-front h pre stop ((p, v) ∷ (q, w) ∷ xs) ys s =
      (s.0, s.1, Seg-front h p stop ((q, w) ∷ xs) ys s.2)

  pub Seg-back :
      (h : Heap A) (pre stop : Ptr) (xs ys : Cells A)
      → Seg h pre stop (xs ++ ys)
      → Seg h (last pre xs) stop ys
  Seg-back h pre stop [] ys s = s
  Seg-back h pre stop ((p, v) ∷ xs) ys s = Seg-back h p stop xs ys s.2

  -- A cell of a segment is a node of the heap.
  pub Seg-holds :
      (h : Heap A) (pre stop : Ptr) (xs : Cells A) (a : Ptr)
      → Seg h pre stop xs
      → has a xs ≡ true
      → (n : Node A) × (a ≢ null) × (h a ≡ some n)
  Seg-holds h pre stop [] a s i = absurd (ground arith)
  Seg-holds h pre stop ((p, v) ∷ xs) a s i = elim (Bool-cases (a == p)) [
    | inl e ↦ (node v pre (first xs stop), ground arith, ground arith)
    | inr e ↦ Seg-holds h p stop xs a s.2 (ground arith)
  ]

  -- A null address is in no segment.
  pub not-has-null :
      (h : Heap A) (pre stop : Ptr) (xs : Cells A) → Seg h pre stop xs → has null xs ≡ false
  not-has-null h pre stop [] s = refl
  not-has-null h pre stop ((p, v) ∷ xs) s = ground (arith, not-has-null h p stop xs s.2)

  pub first_ne :
      (c : Ptr × A) (xs : Cells A) (a : Ptr) → has a (c ∷ xs) ≡ false → (c.0 == a) ≡ false
  first_ne c xs a out = ground arith

  pub ne_of_mem : (a b : Ptr) (xs : Cells A) → has a xs ≡ false → has b xs ≡ true → (a == b) ≡ false
  ne_of_mem a b [] out i = absurd (ground arith)
  ne_of_mem a b ((p, v) ∷ xs) out i = elim (Bool-cases (b == p)) [
    | inl e ↦ ground arith
    | inr e ↦ ne_of_mem a b xs (ground arith) (ground arith)
  ]

  pub modify-ne :
      (h : Heap A) (p a : Ptr) (f : Node A → Node A) → (a == p) ≡ false → modify h p f a ≡ h a
  unfolding modify
  modify-ne h p a f e = rw e

  -- `last->next = q` moves the end of a segment to `q`.
  pub Seg-set_last :
      (h : Heap A) (pre stop q : Ptr) (c : Ptr × A) (xs : Cells A)
      → Seg h pre stop (c ∷ xs)
      → Distinct (c ∷ xs)
      → Seg (modify h (last pre (c ∷ xs)) (with_next q)) pre q (c ∷ xs)
  unfolding modify
  Seg-set_last h pre stop q (p, v) [] s d = (s.0, ground arith, tt)
  Seg-set_last h pre stop q (p, v) ((r, w) ∷ xs) s d = (
    s.0,
    modify-ne h (last p ((r, w) ∷ xs)) p (with_next q)
          (ne_of_mem p (last p ((r, w) ∷ xs)) ((r, w) ∷ xs) d.0 (last-mem p (r, w) xs))
        ∙ s.1,
    Seg-set_last h p stop q (r, w) xs s.2 d.1,
  )

  -- `first->prev = q` moves the start of a segment behind `q`.
  pub Seg-set_first :
      (h : Heap A) (pre stop q p : Ptr) (v : A) (xs : Cells A)
      → Seg h pre stop ((p, v) ∷ xs)
      → Distinct ((p, v) ∷ xs)
      → Seg (modify h p (with_prev q)) q stop ((p, v) ∷ xs)
  unfolding modify
  Seg-set_first h pre stop q p v xs s d =
      (s.0, ground arith, frame h (modify h p (with_prev q)) p stop xs s.2 (λ a i. ground arith))

  pub Seg-modify :
      (h : Heap A) (pre stop p : Ptr) (f : Node A → Node A) (xs : Cells A)
      → Seg h pre stop xs
      → has p xs ≡ false
      → Seg (modify h p f) pre stop xs
  unfolding modify
  Seg-modify h pre stop p f xs s out = frame h (modify h p f) pre stop xs s (λ a i. ground arith)
