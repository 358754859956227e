-- ===== src/RbTree/Lift.antt =====
-- The two halves of a rotation of src/datas/pure_rbtree.cpp: the link of the inner grandson, and the
-- links between the two nodes and the parent.
use record_lib.Base.{
  ℕ, ◌≡◌, ◌==◌, ◌&&◌, not, false, refl, ◌∙◌, some, arith, Returns, returns, bind, inl, inr,
  Bool-cases, eq_refl, if◌then◌else◌,
}
use record_lib.Links.{Ptr}
use record_lib.RbTree.{
  RbNode, RbTree, Memory, Side, left, right, son, with_son, with_parent, put, replace, relink,
  lift_son,
}
use record_lib.RbTree.Shape.{rb}

-- A node with its sons on a side and on the other one.
abbrev pub rb_on : Side → (parent near far : Ptr) → (c k v : ℕ) → RbNode
rb_on left p near far c k v = rb p near far c k v
rb_on right p near far c k v = rb p far near c k v

-- The writes to `b`, the inner grandson, which is left alone when it is the sentinel.
pub record Relinked (x b : Ptr) (nb : RbNode) (t t' : RbTree) : Type 0 where
  pub same_nil : t'.nil ≡ t.nil
  pub same_root : t'.root ≡ t.root
  pub inner : (b == t.nil) ≡ false → t'.mem b ≡ some (with_parent x nb)
  pub rest : (a : Ptr) → ((a == b) && not (b == t.nil)) ≡ false → t'.mem a ≡ t.mem a

pub relink-Relinked :
    (s : Side) (x y b : Ptr) (nb ny : RbNode) (t : RbTree)
    → t.mem y ≡ some ny
    → son s ny ≡ b
    → ((b == t.nil) ≡ false → t.mem b ≡ some nb)
    → Returns (Relinked x b nb t) (relink s x y t)
unfolding relink put
relink-Relinked s x y b nb ny t at e inner = elim (Bool-cases (b == t.nil)) [
  | inl n ↦
      rw (at, e, n)
        (returns (record {
          same_nil = refl;
          same_root = refl;
          inner = λ h. absurd (ground arith);
          rest = λ a h. refl;
        }))
  | inr n ↦
      rw (at, e, n, inner n)
        (returns (record {
          same_nil = refl;
          same_root = refl;
          inner = λ h. rw (eq_refl b) refl;
          rest = λ a h. let o : (a == b) ≡ false = ground arith in rw o refl;
        }))
]

-- The writes to the parent `p`, or to the root.
pub record Replaced (u p v : Ptr) (np : RbNode) (t t' : RbTree) : Type 0 where
  pub same_nil : t'.nil ≡ t.nil
  pub new_root : t'.root ≡ (if p == t.nil then v else t.root)
  pub outer :
      (p == t.nil) ≡ false → t'.mem p ≡ some (with_son (if u == np.lson then left else right) v np)
  pub rest : (a : Ptr) → ((a == p) && not (p == t.nil)) ≡ false → t'.mem a ≡ t.mem a

replace-Replaced :
    (u p v : Ptr) (np : RbNode) (t : RbTree)
    → ((p == t.nil) ≡ false → t.mem p ≡ some np)
    → Returns (Replaced u p v np t) (replace u p v t)
unfolding replace put
replace-Replaced u p v np t outer = elim (Bool-cases (p == t.nil)) [
  | inl n ↦ rw n (
      returns (record {
        same_nil = refl;
        new_root = rw n refl;
        outer = λ h. absurd (ground arith);
        rest = λ a h. refl;
      }))
  | inr n ↦
      rw (n, outer n)
        (returns (record {
          same_nil = refl;
          new_root = rw n refl;
          outer = λ h. rw (eq_refl p) refl;
          rest = λ a h. let o : (a == p) ≡ false = ground arith in rw o refl;
        }))
]

pub with_son-parent : (s : Side) (q : Ptr) (n : RbNode) → (with_son s q n).parent ≡ n.parent
with_son-parent left q n = refl
with_son-parent right q n = refl

pub put-here : (p : Ptr) (n : RbNode) (m : Memory) → put p n m p ≡ some n
unfolding put
put-here p n m = rw (eq_refl p) refl

pub put-there : (p a : Ptr) (n : RbNode) (m : Memory) → (a == p) ≡ false → put p n m a ≡ m a
unfolding put
put-there p a n m o = rw o refl

pub record Lifted (s : Side) (x y p : Ptr) (nx ny np : RbNode) (t t' : RbTree) : Type 0 where
  pub same_nil : t'.nil ≡ t.nil
  pub new_root : t'.root ≡ (if p == t.nil then y else t.root)
  pub down : t'.mem x ≡ some (with_parent y nx)
  pub up : t'.mem y ≡ some (with_son s x (with_parent p ny))
  pub outer :
      (p == t.nil) ≡ false → t'.mem p ≡ some (with_son (if x == np.lson then left else right) y np)
  pub rest :
      (a : Ptr)
      → (a == x) ≡ false
      → (a == y) ≡ false
      → ((a == p) && not (p == t.nil)) ≡ false
      → t'.mem a ≡ t.mem a

pub lift_son-Lifted :
    (s : Side) (x y p : Ptr) (nx ny np : RbNode) (t : RbTree)
    → t.mem x ≡ some nx
    → t.mem y ≡ some ny
    → ((p == t.nil) ≡ false → t.mem p ≡ some np)
    → nx.parent ≡ p
    → (x == y) ≡ false
    → ((x == p) && not (p == t.nil)) ≡ false
    → ((y == p) && not (p == t.nil)) ≡ false
    → Returns (Lifted s x y p nx ny np t) (lift_son s x y t)
unfolding lift_son
lift_son-Lifted s x y p nx ny np t at_x at_y at_p e x_y x_p y_p =
    let m₁ : Memory = put y (with_parent p ny) t.mem in
    let t₁ : RbTree = record t { mem = m₁ } in
    let x₁ : t₁.mem x ≡ some nx = put-there y x (with_parent p ny) t.mem x_y ∙ at_x in
    let p₁ : (p == t.nil) ≡ false → t₁.mem p ≡ some np =
      λ h. put-there y p (with_parent p ny) t.mem (ground arith) ∙ at_p h in
    rw (at_x, e, at_y, x₁, e)
      (bind (replace-Replaced x p y np t₁ p₁) λ t₂ r.
        let y₂ : t₂.mem y ≡ some (with_parent p ny) =
          r.rest y y_p ∙ put-here y (with_parent p ny) t.mem in
        let x₂ : t₂.mem x ≡ some nx = r.rest x x_p ∙ x₁ in
        let x₃ : put y (with_son s x (with_parent p ny)) t₂.mem x ≡ some nx =
          put-there y x (with_son s x (with_parent p ny)) t₂.mem x_y ∙ x₂ in
        let m₂ : Memory = put y (with_son s x (with_parent p ny)) t₂.mem in
        let y_x : (y == x) ≡ false = ground arith in
        rw (y₂, x₃)
          (returns (record {
            same_nil = r.same_nil;
            new_root = r.new_root;
            down = put-here x (with_parent y nx) m₂;
            up =
                put-there x y (with_parent y nx) m₂ y_x
                ∙ put-here y (with_son s x (with_parent p ny)) t₂.mem;
            outer = λ h.
                let p_x : (p == x) ≡ false = ground arith in
                let p_y : (p == y) ≡ false = ground arith in
                put-there x p (with_parent y nx) m₂ p_x
                ∙ put-there y p (with_son s x (with_parent p ny)) t₂.mem p_y
                ∙ r.outer h;
            rest = λ a o_x o_y o_p.
                put-there x a (with_parent y nx) m₂ o_x
                ∙ put-there y a (with_son s x (with_parent p ny)) t₂.mem o_y
                ∙ r.rest a o_p
                ∙ put-there y a (with_parent p ny) t.mem o_y;
          })))
