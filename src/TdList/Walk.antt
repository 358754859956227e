-- ===== src/TdList/Walk.antt =====
-- `for_each` and `for_each_until` of src/datas/t_dlist.h with the callbacks of the class:
-- `clear_list` and `get_nth_node`.
use mathlib.Core.Path.{subst}
use record_lib.Base.{
  sym, ℕ, zero, suc, ◌+◌, ◌-◌, ◌<◌, ◌≤◌, ◌^◌, ◌%◌, ◌≡◌, ◌≢◌, refl, false, true, none, some, [], ◌∷◌,
  arith, length, Returns, returns, bind, mono, u32_mod, eq_refl,
}
use record_lib.Links.{Ptr, null, node}
use record_lib.Links.Seg.{Cells, has, first, Seg, SameOutside, frame}
use record_lib.Links.Writes.{not_null, load-ok, free-ok}
use record_lib.TdList.{
  TdList, until_loop, each_loop, do_clear_list, clear_list, compare_index_to_zero, get_nth_node,
}
use record_lib.TdList.Inv.{IsList}
use record_lib.TdList.Remove.{remove_node-Removed}

module _ {A : Type 0} where
  do_clear_list-Deleted :
      {s : TdList A} (p : Ptr) (v : A) (xs : Cells A)
      → IsList s ((p, v) ∷ xs)
      → Returns
          (λ t. IsList t xs × (t.heap p ≡ none) × SameOutside ((p, v) ∷ xs) s.heap t.heap)
          (do_clear_list p s)
  unfolding do_clear_list
  do_clear_list-Deleted {s} p v xs is =
      bind (remove_node-Removed [] p v xs is) λ t (left, at, same).
        rw (free-ok t.heap p is.chain.0 (node v null null) at) (
          returns (
            record {
              chain = frame t.heap _ null null xs left.chain (λ a i. ground arith);
              distinct = left.distinct;
              head = left.head;
              tail = left.tail;
              count = left.count;
            },
            rw (eq_refl p),
            λ a o. ground (arith, same a o),
          ))

  -- What `clear_list` leaves: an empty list, none of the nodes, and all else as it was.
  abbrev pub Cleared : Cells A → TdList A → TdList A → Type 0
  Cleared xs s t =
      IsList t [] × ((a : Ptr) → has a xs ≡ true → t.heap a ≡ none) × SameOutside xs s.heap t.heap

  each_loop-Cleared :
      (k : ℕ) {s : TdList A} (xs : Cells A)
      → IsList s xs
      → length xs < k
      → Returns (Cleared xs s) (each_loop do_clear_list k (first xs null) s)
  unfolding each_loop
  each_loop-Cleared zero xs is fuel = absurd (omega arith)
  each_loop-Cleared (suc k) [] is fuel = returns (is, λ a i. cc, λ a o. refl)
  each_loop-Cleared (suc k) {s} ((p, v) ∷ xs) is fuel =
      let (live, at, rest) = is.chain in
      rw (not_null p live, load-ok s.heap p live (node v null (first xs null)) at)
        (bind (do_clear_list-Deleted p v xs is) λ t (left, gone, same).
          mono (each_loop-Cleared k xs left (omega arith)) λ u (done, none_left, kept). (
            done,
            λ a i. ground (arith, none_left a, kept a, is.distinct),
            λ a o. ground (arith, kept a, same a),
          ))

  -- With fuel above the number of nodes, clear_list on a well-formed list returns; the list is
  -- then empty with a count of 0, every node of it was freed, and memory outside the list is
  -- unchanged.
  pub clear_list-Cleared :
      (fuel : ℕ) {s : TdList A} {xs : Cells A}
      → IsList s xs
      → length xs < fuel
      → Returns (Cleared xs s) (clear_list fuel s)
  unfolding clear_list
  clear_list-Cleared fuel {s} {xs} is enough =
      subst (λ q. Returns (Cleared xs s) (each_loop do_clear_list fuel q s)) (sym is.head)
        (each_loop-Cleared fuel xs is enough)

  -- The address of the cell at an index, or NULL past the end.
  abbrev pub address_at : Cells A → ℕ → Ptr
  address_at [] i = null
  address_at ((p, v) ∷ xs) zero = p
  address_at ((p, v) ∷ xs) (suc i) = address_at xs i

  abbrev pub Found : Ptr → TdList A → Ptr × ℕ × TdList A → Type 0
  Found p s (q, left, t) = (q ≡ p) × (t ≡ s)

  compare-step :
      (p : Ptr) (i : ℕ) (s : TdList A)
      → i ≢ 0
      → i ≢ 2 ^ 31
      → i < u32_mod
      → compare_index_to_zero p i s ≡ some (false, i - 1, s)
  unfolding compare_index_to_zero
  compare-step p i s ne_zero ne_min small =
      let e : (i + u32_mod - 1) % u32_mod ≡ i - 1 = omega arith in ground (arith, e)

  until_loop-Found :
      (k : ℕ) (s : TdList A) (pre : Ptr) (xs : Cells A) (i : ℕ)
      → Seg s.heap pre null xs
      → length xs < k
      → i < 2 ^ 31
      → Returns (Found (address_at xs i) s) (until_loop compare_index_to_zero k (first xs null) i s)
  unfolding until_loop
  until_loop-Found zero s pre xs i seg fuel small = absurd (omega arith)
  until_loop-Found (suc k) s pre [] i seg fuel small = returns (refl, refl)
  until_loop-Found (suc k) s pre ((p, v) ∷ xs) zero (live, at, rest) fuel small =
      rw (not_null p live, load-ok s.heap p live (node v pre (first xs null)) at)
        (unfold compare_index_to_zero in returns (refl, refl))
  until_loop-Found (suc k) s pre ((p, v) ∷ xs) (suc i) (live, at, rest) fuel small =
      rw
        (
          not_null p live,
          load-ok s.heap p live (node v pre (first xs null)) at,
          compare-step p (suc i) s (omega arith) (omega arith) (omega arith),
        )
        (let e : suc i - 1 ≡ i = omega arith in
          rw e (until_loop-Found k s p xs i rest (omega arith) (omega arith)))

  -- A negative index counts away from zero, so the walk runs to the end of the list.
  until_loop-null :
      (k : ℕ) (s : TdList A) (pre : Ptr) (xs : Cells A) (i : ℕ)
      → Seg s.heap pre null xs
      → length xs < k
      → 2 ^ 31 + length xs ≤ i
      → i < u32_mod
      → Returns (Found null s) (until_loop compare_index_to_zero k (first xs null) i s)
  unfolding until_loop
  until_loop-null zero s pre xs i seg fuel neg small = absurd (omega arith)
  until_loop-null (suc k) s pre [] i seg fuel neg small = returns (refl, refl)
  until_loop-null (suc k) s pre ((p, v) ∷ xs) i (live, at, rest) fuel neg small =
      rw
        (
          not_null p live,
          load-ok s.heap p live (node v pre (first xs null)) at,
          compare-step p i s (omega arith) (omega arith) small,
        )
        (until_loop-null k s p xs (i - 1) rest (omega arith) (omega arith) (omega arith))

  -- With fuel above the number of nodes, get_nth_node at an index below 2^31 of a well-formed list
  -- returns the address of the node at that place, or NULL past the end, and leaves the list as it
  -- was.
  pub get_nth_node-address :
      (fuel : ℕ) {s : TdList A} {xs : Cells A} (i : ℕ)
      → IsList s xs
      → length xs < fuel
      → i < 2 ^ 31
      → Returns (Found (address_at xs i) s) (get_nth_node fuel i s)
  unfolding get_nth_node
  get_nth_node-address fuel {s} {xs} i is enough small =
      subst (λ q. Returns (Found (address_at xs i) s) (until_loop compare_index_to_zero fuel q i s))
        (sym is.head) (until_loop-Found fuel s null xs i is.chain enough small)

  -- With fuel above the number of nodes, get_nth_node at a negative index that is at least INT_MIN
  -- plus that number returns NULL and leaves the well-formed list as it was.
  pub get_nth_node_negative :
      (fuel : ℕ) {s : TdList A} {xs : Cells A} (i : ℕ)
      → IsList s xs
      → length xs < fuel
      → 2 ^ 31 + length xs ≤ i
      → i < u32_mod
      → Returns (Found null s) (get_nth_node fuel i s)
  unfolding get_nth_node
  get_nth_node_negative fuel {s} {xs} i is enough neg small =
      subst (λ q. Returns (Found null s) (until_loop compare_index_to_zero fuel q i s))
        (sym is.head) (until_loop-null fuel s null xs i is.chain enough neg small)
