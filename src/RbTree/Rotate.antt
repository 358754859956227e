-- ===== src/RbTree/Rotate.antt =====
-- What `left_rotate` and `right_rotate` of src/datas/pure_rbtree.cpp write.
use record_lib.Base.{
  ◌≡◌, ◌==◌, ◌&&◌, not, false, refl, sym, ap, ◌∙◌, some, arith, Returns, bind, mono, if◌then◌else◌,
}
use record_lib.Links.{Ptr}
use record_lib.RbTree.{
  RbNode, RbTree, Side, left, right, other, son, with_son, with_parent, put, rotate,
}
use record_lib.RbTree.Lift.{
  Relinked, Lifted, relink-Relinked, lift_son-Lifted, with_son-parent, put-here, put-there,
}

-- The nodes around a rotation at `x`, whose son `y` comes up: the inner grandson `b` and the parent `p`.
pub record Around (s : Side) (x y b p : Ptr) (nx ny nb np : RbNode) (t : RbTree) : Type 0 where
  pub at_x : t.mem x ≡ some nx
  pub at_y : t.mem y ≡ some ny
  pub at_b : (b == t.nil) ≡ false → t.mem b ≡ some nb
  pub at_p : (p == t.nil) ≡ false → t.mem p ≡ some np
  pub x_son : son (other s) nx ≡ y
  pub y_son : son s ny ≡ b
  pub x_parent : nx.parent ≡ p
  pub x_y : (x == y) ≡ false
  pub x_b : ((x == b) && not (b == t.nil)) ≡ false
  pub y_b : ((y == b) && not (b == t.nil)) ≡ false
  pub x_p : ((x == p) && not (p == t.nil)) ≡ false
  pub y_p : ((y == p) && not (p == t.nil)) ≡ false
  pub p_b : ((p == b) && not (p == t.nil)) ≡ false

pub record Rotated (s : Side) (x y b p : Ptr) (nx ny nb np : RbNode) (t t' : RbTree) : Type 0 where
  pub same_nil : t'.nil ≡ t.nil
  pub new_root : t'.root ≡ (if p == t.nil then y else t.root)
  pub down : t'.mem x ≡ some (with_parent y (with_son (other s) b nx))
  pub up : t'.mem y ≡ some (with_son s x (with_parent p ny))
  pub inner : (b == t.nil) ≡ false → t'.mem b ≡ some (with_parent x nb)
  pub outer :
      (p == t.nil) ≡ false → t'.mem p ≡ some (with_son (if x == np.lson then left else right) y np)
  pub rest :
      (a : Ptr)
      → (a == x) ≡ false
      → (a == y) ≡ false
      → ((a == b) && not (b == t.nil)) ≡ false
      → ((a == p) && not (p == t.nil)) ≡ false
      → t'.mem a ≡ t.mem a

-- The two halves together.
Lifted-Rotated :
    (s : Side) (x y b p : Ptr) (nx ny nb np : RbNode) (t t₂ t₃ : RbTree)
    → Around s x y b p nx ny nb np t
    → Relinked x b nb (record t { mem = put x (with_son (other s) b nx) t.mem }) t₂
    → Lifted s x y p (with_son (other s) b nx) ny np t₂ t₃
    → Rotated s x y b p nx ny nb np t t₃
Lifted-Rotated s x y b p nx ny nb np t t₂ t₃ r k l =
    let n₂ : t₂.nil ≡ t.nil = k.same_nil in
    let nx₁ : RbNode = with_son (other s) b nx in
    record {
      same_nil = l.same_nil ∙ n₂;
      new_root =
          l.new_root
          ∙ ap (λ n. if p == n then y else t₂.root) n₂
          ∙ ap (λ o. if p == t.nil then y else o) k.same_root;
      down = l.down;
      up = l.up;
      inner = λ h.
          let b_x : (b == x) ≡ false = let o = r.x_b in ground arith in
          let b_y : (b == y) ≡ false = let o = r.y_b in ground arith in
          let b_p : ((b == p) && not (p == t.nil)) ≡ false = let o = r.p_b in ground arith in
          l.rest b b_x b_y (ap (λ n. (b == p) && not (p == n)) n₂ ∙ b_p) ∙ k.inner h;
      outer = λ h. l.outer (ap (λ n. p == n) n₂ ∙ h);
      rest = λ a o_x o_y o_b o_p.
          l.rest a o_x o_y (ap (λ n. (a == p) && not (p == n)) n₂ ∙ o_p)
          ∙ k.rest a o_b
          ∙ put-there x a nx₁ t.mem o_x;
    }

-- A rotation writes to the two nodes, the parent and the inner grandson, and to nothing else.
pub rotate-Rotated :
    (s : Side) (x y b p : Ptr) (nx ny nb np : RbNode) (t : RbTree)
    → Around s x y b p nx ny nb np t
    → Returns (Rotated s x y b p nx ny nb np t) (rotate s x t)
unfolding rotate
rotate-Rotated s x y b p nx ny nb np t r =
    let nx₁ : RbNode = with_son (other s) b nx in
    let t₁ : RbTree = record t { mem = put x nx₁ t.mem } in
    let y_x : (y == x) ≡ false = let o = r.x_y in ground arith in
    let y₁ : t₁.mem y ≡ some ny = put-there x y nx₁ t.mem y_x ∙ r.at_y in
    let b₁ : (b == t.nil) ≡ false → t₁.mem b ≡ some nb = λ h.
      let b_x : (b == x) ≡ false = let o = r.x_b in ground arith in
      put-there x b nx₁ t.mem b_x ∙ r.at_b h in
    rw (r.at_x, r.x_son, r.at_y, r.y_son)
      (bind (relink-Relinked s x y b nb ny t₁ y₁ r.y_son b₁) λ t₂ k.
        let x₂ : t₂.mem x ≡ some nx₁ = k.rest x r.x_b ∙ put-here x nx₁ t.mem in
        let y₂ : t₂.mem y ≡ some ny = k.rest y r.y_b ∙ y₁ in
        let n₂ : t₂.nil ≡ t.nil = k.same_nil in
        let p₂ : (p == t₂.nil) ≡ false → t₂.mem p ≡ some np = λ h.
          let live : (p == t.nil) ≡ false = ap (λ n. p == n) (sym n₂) ∙ h in
          let p_b : (p == b) ≡ false = let o = r.p_b in ground arith in
          let p_x : (p == x) ≡ false = let o = r.x_p in ground arith in
          let p_b' : ((p == b) && not (b == t.nil)) ≡ false = rw p_b refl in
          k.rest p p_b' ∙ put-there x p nx₁ t.mem p_x ∙ r.at_p live in
        mono
          (lift_son-Lifted s x y p nx₁ ny np t₂ x₂ y₂ p₂
            (with_son-parent (other s) b nx ∙ r.x_parent) r.x_y
            (ap (λ n. (x == p) && not (p == n)) n₂ ∙ r.x_p)
            (ap (λ n. (y == p) && not (p == n)) n₂ ∙ r.y_p))
          λ t₃ l. Lifted-Rotated s x y b p nx ny nb np t t₂ t₃ r k l)
