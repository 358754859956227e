-- ===== src/RbTree/Places.antt =====
-- Roots, parents and links of trees in the memory of src/datas/pure_rbtree.cpp.
use mathlib.Core.Path.{subst}
use record_lib.Base.{
  ℕ, ◌≡◌, ◌==◌, ◌&&◌, not, true, false, refl, sym, ap, ◌∙◌, some, arith, inl, inr, Bool-cases,
  eq_refl, if◌then◌else◌, List, [], ◌++◌, ◌∷◌,
}
use record_lib.Links.{Ptr}
use record_lib.RbTree.{RbNode, Memory, Side, left, right, other, son, with_son, with_parent}
use record_lib.RbTree.Shape.{Tree, leaf, branch, root_of, rb, IsTree, entries}
use record_lib.RbTree.Lift.{rb_on}
use record_lib.RbTree.Context.{
  join, Context, top, inside, parent_at, IsContext, member, member_above, Spread, SpreadAbove,
  member-other, IsTree-frame, IsContext-frame,
}

-- The contents of the root's node, and of the node above a place.
abbrev pub node_under : Ptr → Ptr → Tree → RbNode
node_under nil p leaf = rb 0 0 0 0 0 0
node_under nil p (branch a c k v l r) = rb p (root_of nil l) (root_of nil r) c k v

abbrev pub node_above : Ptr → Ptr → Context → RbNode
node_above nil child top = rb 0 0 0 0 0 0
node_above nil child (inside s a c k v sibling up) =
    rb_on s (parent_at nil up) child (root_of nil sibling) c k v

pub root_of-join :
    (s : Side) (nil a : Ptr) (c k v : ℕ) (near far : Tree)
    → root_of nil (join s a c k v near far) ≡ a
root_of-join left nil a c k v near far = refl
root_of-join right nil a c k v near far = refl

pub at_root :
    (mem : Memory) (nil p : Ptr) (t : Tree)
    → IsTree mem nil p t
    → (root_of nil t == nil) ≡ false
    → mem (root_of nil t) ≡ some (node_under nil p t)
at_root mem nil p leaf is live = let e = eq_refl nil in cc
at_root mem nil p (branch a c k v l r) is live = is.1

pub at_above :
    (mem : Memory) (nil root child : Ptr) (up : Context)
    → IsContext mem nil root child up
    → (parent_at nil up == nil) ≡ false
    → mem (parent_at nil up) ≡ some (node_above nil child up)
at_above mem nil root child top is live = let e = eq_refl nil in cc
at_above mem nil root child (inside s a c k v sibling up) is live = is.1

-- An address outside of a tree is not its root, and one outside of the way up is not the parent.
pub away :
    (nil a : Ptr) (t : Tree)
    → member a t ≡ false
    → ((a == root_of nil t) && not (root_of nil t == nil)) ≡ false
away nil a leaf o = let e = eq_refl nil in ground arith
away nil a (branch b c k v l r) o = ground arith

pub away_above :
    (nil a : Ptr) (up : Context)
    → member_above a up ≡ false
    → ((a == parent_at nil up) && not (parent_at nil up == nil)) ≡ false
away_above nil a top o = let e = eq_refl nil in ground arith
away_above nil a (inside s b c k v sibling up) o = ground arith

not_root :
    (nil a : Ptr) (t : Tree)
    → (a == nil) ≡ false
    → member a t ≡ false
    → (a == root_of nil t) ≡ false
not_root nil a leaf live o = live
not_root nil a (branch b c k v l r) live o = ground arith

pub above-other :
    (a b : Ptr) (up : Context)
    → member_above a up ≡ true
    → member_above b up ≡ false
    → (a == b) ≡ false
above-other a b up i o = elim (Bool-cases (a == b)) [
  | inl e ↦
      let same : a ≡ b = ground arith in let i' = sym (ap (λ x. member_above x up) same) ∙ i in cc
  | inr e ↦ e
]

-- The parent is not the root of a tree that stands below it.
pub parent_root :
    (nil : Ptr) (t : Tree) (up : Context)
    → ((a : Ptr) → member a t ≡ true → member_above a up ≡ false)
    → ((parent_at nil up == root_of nil t) && not (parent_at nil up == nil)) ≡ false
parent_root nil t top apart = let e = eq_refl nil in ground arith
parent_root nil leaf (inside s a c k v sibling up) apart = ground arith
parent_root nil (branch b c' k' v' l r) (inside s a c k v sibling up) apart =
    let here : member b (branch b c' k' v' l r) ≡ true = ground (arith, eq_refl b) in
    let o = apart b here in ground arith

-- A subtree gets another parent.
pub reparent :
    (mem mem' : Memory) (nil p q : Ptr) (t : Tree)
    → IsTree mem nil p t
    → Spread t
    → ((root_of nil t == nil) ≡ false
        → mem' (root_of nil t) ≡ some (with_parent q (node_under nil p t)))
    → ((a : Ptr) → member a t ≡ true → (a == root_of nil t) ≡ false → mem' a ≡ mem a)
    → IsTree mem' nil q t
reparent mem mem' nil p q leaf is sp at same = tt
reparent mem mem' nil p q (branch a c k v l r) (live, at₀, il, ir) (nl, nr, apart, sl, sr) at same =
    (
      live,
      at live,
      IsTree-frame mem mem' nil a l (λ b i. same b (ground arith) (member-other b a l i nl)) il,
      IsTree-frame mem mem' nil a r (λ b i. same b (ground arith) (member-other b a r i nr)) ir,
    )

pub son-far : (s : Side) (p n f : Ptr) (c k v : ℕ) → son (other s) (rb_on s p n f c k v) ≡ f
son-far left p n f c k v = refl
son-far right p n f c k v = refl

pub son-near : (s : Side) (p n f : Ptr) (c k v : ℕ) → son s (rb_on s p n f c k v) ≡ n
son-near left p n f c k v = refl
son-near right p n f c k v = refl

pub parent-rb_on : (s : Side) (p n f : Ptr) (c k v : ℕ) → (rb_on s p n f c k v).parent ≡ p
parent-rb_on left p n f c k v = refl
parent-rb_on right p n f c k v = refl

pub lowered :
    (s : Side) (p q n f g : Ptr) (c k v : ℕ)
    → with_parent q (with_son (other s) g (rb_on s p n f c k v)) ≡ rb_on s q n g c k v
lowered left p q n f g c k v = refl
lowered right p q n f g c k v = refl

pub raised :
    (s : Side) (p q n m f : Ptr) (c k v : ℕ)
    → with_son s m (with_parent q (rb_on s p n f c k v)) ≡ rb_on s q m f c k v
raised left p q n m f c k v = refl
raised right p q n m f c k v = refl

-- The link from the parent follows the node that came up.
relinked :
    (s : Side) (nil p x y : Ptr) (sibling : Tree) (c k v : ℕ)
    → (x == nil) ≡ false
    → member x sibling ≡ false
    → with_son
        (if x == (rb_on s p x (root_of nil sibling) c k v).lson then left else right)
        y
        (rb_on s p x (root_of nil sibling) c k v)
      ≡ rb_on s p y (root_of nil sibling) c k v
relinked left nil p x y sibling c k v live o = rw (eq_refl x) refl
relinked right nil p x y sibling c k v live o = rw (not_root nil x sibling live o) refl

-- The way up from a place where another node came up.
pub IsContext-turned :
    (mem mem' : Memory) (nil root root' x y : Ptr) (up : Context)
    → IsContext mem nil root x up
    → SpreadAbove up
    → (x == nil) ≡ false
    → member_above x up ≡ false
    → root' ≡ (if parent_at nil up == nil then y else root)
    → ((parent_at nil up == nil) ≡ false
        → mem' (parent_at nil up)
          ≡ some (
              with_son
                (if x == (node_above nil x up).lson then left else right)
                y
                (node_above nil x up)))
    → ((a : Ptr) → member_above a up ≡ true → (a == parent_at nil up) ≡ false → mem' a ≡ mem a)
    → IsContext mem' nil root' y up
IsContext-turned mem mem' nil root root' x y top is sp live o e at same = rw (eq_refl nil) at e
IsContext-turned mem mem' nil root root' x y (inside s a c k v sibling up) (a_live, at_a, it, iu)
      (a_sib, a_up, apart, sp) live o e at same =
    let x_sib : member x sibling ≡ false = ground arith in
    let root_same : root' ≡ root = rw a_live at e in
    (
      a_live,
      at a_live ∙ ap some (relinked s nil (parent_at nil up) x y sibling c k v live x_sib),
      IsTree-frame mem mem' nil a sibling
          (λ b i. same b (ground arith) (member-other b a sibling i a_sib)) it,
      subst (λ r. IsContext mem' nil r a up) (sym root_same)
          (IsContext-frame mem mem' nil root a up
            (λ b i. same b (ground arith) (above-other b a up i a_up)) iu),
    )

append_assoc : (xs ys zs : List (ℕ × ℕ)) → (xs ++ ys) ++ zs ≡ xs ++ (ys ++ zs)
append_assoc [] ys zs = refl
append_assoc (e ∷ xs) ys zs = ap (λ l. e ∷ l) (append_assoc xs ys zs)

-- A rotation keeps the order of the entries.
pub entries-join :
    (s : Side) (x cx kx vx y cy ky vy : ℕ) (near mid far : Tree)
    → entries (join s y cy ky vy (join s x cx kx vx near mid) far)
      ≡ entries (join s x cx kx vx near (join s y cy ky vy mid far))
entries-join left x cx kx vx y cy ky vy near mid far =
    append_assoc (entries near) ((kx, vx) ∷ entries mid) ((ky, vy) ∷ entries far)
entries-join right x cx kx vx y cy ky vy near mid far =
    sym (append_assoc (entries far) ((ky, vy) ∷ entries mid) ((kx, vx) ∷ entries near))
