-- ===== src/Links/Back.antt =====
-- Segments under the two relinking steps of the allocators: a new predecessor for the first node,
-- and a node taken out.
use record_lib.Base.{
  ◌≡◌, refl, ◌∙◌, true, false, [], ◌∷◌, ◌++◌, arith, ◌==◌, inl, inr, Bool-cases, ◌>>=◌, Returns,
  returns, mono,
}
use record_lib.Links.{Ptr, null, node, Heap, with_prev, with_next, set_next, link_back}
use record_lib.Links.Seg.{
  Cells, has, first, last, Distinct, Seg, SameOutside, frame, Seg-holds, Seg-modify, Seg-set_last,
  Seg-set_first, Seg-append, last-mem, modify-ne, ne_of_mem, has-append, not-has-append,
}
use record_lib.Links.Writes.{not_null, set_prev-ok, set_next-ok}

module _ {A : Type 0} where
  abbrev pub Apart : Cells A → Cells A → Type 0
  Apart xs ys = (a : Ptr) → has a xs ≡ true → has a ys ≡ false

  pub Apart-sym : (xs ys : Cells A) → Apart xs ys → Apart ys xs
  Apart-sym xs ys apart a i = ground (arith, apart a)

  pub Apart-cons :
      (p : Ptr) (v : A) (xs ys : Cells A) → has p ys ≡ false → Apart xs ys → Apart ((p, v) ∷ xs) ys
  Apart-cons p v xs ys out apart a i = elim (Bool-cases (a == p)) [
    | inl e ↦ let e' : a ≡ p = ground arith in rw e' out
    | inr e ↦ apart a (ground arith)
  ]

  pub Apart-append : (xs ys zs : Cells A) → Apart xs zs → Apart ys zs → Apart (xs ++ ys) zs
  Apart-append xs ys zs left right a i = elim (Bool-cases (has a xs)) [
    | inl e ↦ left a e
    | inr e ↦ right a (let e' = has-append a xs ys in ground arith)
  ]

  pub has-left : (a : Ptr) (xs ys : Cells A) → has a xs ≡ true → has a (xs ++ ys) ≡ true
  has-left a xs ys i = let e = has-append a xs ys in ground arith

  pub has-right : (a : Ptr) (xs ys : Cells A) → has a ys ≡ true → has a (xs ++ ys) ≡ true
  has-right a xs ys i = let e = has-append a xs ys in ground arith

  -- What changed lies outside the segment.
  pub frame_apart :
      (h g : Heap A) (pre stop : Ptr) (xs ys : Cells A)
      → SameOutside xs h g
      → Apart ys xs
      → Seg h pre stop ys
      → Seg g pre stop ys
  frame_apart h g pre stop xs ys same apart s = frame h g pre stop ys s (λ a i. same a (apart a i))

  pub link_back-Seg :
      (h : Heap A) (pre q : Ptr) (xs : Cells A)
      → Seg h pre null xs
      → Distinct xs
      → Returns (λ g. Seg g q null xs × SameOutside xs h g) (link_back (first xs null) q h)
  unfolding link_back
  link_back-Seg h pre q [] s d = returns (tt, λ a o. refl)
  link_back-Seg h pre q ((p, v) ∷ xs) s d =
      rw (not_null p s.0, set_prev-ok h p s.0 (node v pre (first xs null)) s.1 q)
        (returns (
          Seg-set_first h pre null q p v xs s d,
          λ a o. modify-ne h p a (with_prev q) (ground arith),
        ))

  -- `p->prev->next = n; if (n != NULL) n->prev = p->prev` closes the gap between two runs.
  pub bridge-Seg :
      (h : Heap A) (stop pre : Ptr) (c : Ptr × A) (xs ys : Cells A)
      → Seg h null stop (c ∷ xs)
      → Seg h pre null ys
      → Distinct (c ∷ xs)
      → Distinct ys
      → Apart (c ∷ xs) ys
      → Returns
          (λ g. Seg g null null ((c ∷ xs) ++ ys) × SameOutside ((c ∷ xs) ++ ys) h g)
          (do
            g ← set_next (last null (c ∷ xs)) (first ys null) h
            link_back (first ys null) (last null (c ∷ xs)) g)
  bridge-Seg h stop pre c xs ys front back d d' apart =
      let t = last null (c ∷ xs) in
      let q = first ys null in
      let in_front = last-mem null c xs in
      let (n, live, at) = Seg-holds h null stop (c ∷ xs) t front in_front in
      rw (set_next-ok h t live n at q) (
        mono
          (link_back-Seg _ pre t ys
            (Seg-modify h pre null t (with_next q) ys back (apart t in_front)) d')
          λ g (linked, same). (
            Seg-append g null null (c ∷ xs) ys
                (frame_apart _ g null q ys (c ∷ xs) same apart
                  (Seg-set_last h null stop q c xs front d))
                linked,
            λ a o.
                let (far, apart') = not-has-append a (c ∷ xs) ys o in
                same a apart' ∙ modify-ne h t a (with_next q) (ne_of_mem a t (c ∷ xs) far in_front),
          ))
