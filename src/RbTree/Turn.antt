-- ===== src/RbTree/Turn.antt =====
-- `left_rotate` and `right_rotate` of src/datas/pure_rbtree.cpp at any place of a tree.
use mathlib.Core.Path.{subst}
use record_lib.Base.{
  ℕ, ◌≡◌, ◌==◌, ◌||◌, Bool, true, false, sym, ap, ◌∙◌, some, arith, inl, inr, Bool-cases, eq_refl,
  Returns, mono, ◌⊎◌,
}
use record_lib.Links.{Ptr}
use record_lib.RbTree.{RbNode, RbTree, Side, rotate}
use record_lib.RbTree.Shape.{Tree, root_of, IsTree, entries}
use record_lib.RbTree.Lift.{rb_on}
use record_lib.RbTree.Rotate.{Around, Rotated, rotate-Rotated}
use record_lib.RbTree.Context.{
  join, Context, parent_at, IsContext, member, member_above, Spread, SpreadAbove, member-join,
  join-IsTree, IsTree-join, Spread-join, member-other, IsTree-frame,
}
use record_lib.RbTree.Places.{
  node_under, node_above, root_of-join, at_root, at_above, away, away_above, above-other,
  parent_root, reparent, IsContext-turned, entries-join, son-far, son-near, parent-rb_on, lowered,
  raised,
}

-- A tree at a place of the whole tree, with no address standing twice.
pub record Stands (t : RbTree) (tree : Tree) (up : Context) : Type 0 where
  pub below : IsTree t.mem t.nil (parent_at t.nil up) tree
  pub above : IsContext t.mem t.nil t.root (root_of t.nil tree) up
  pub spread : Spread tree
  pub spread_above : SpreadAbove up
  pub apart : (a : Ptr) → member a tree ≡ true → member_above a up ≡ false

module _ (s : Side) (x cx kx vx y cy ky vy : ℕ) (near mid far : Tree) (up : Context)
    (t : RbTree) where
  abbrev pub upright : Tree
  upright = join s x cx kx vx near (join s y cy ky vy mid far)

  abbrev pub turned : Tree
  turned = join s y cy ky vy (join s x cx kx vx near mid) far

  abbrev pub node_x : RbNode
  node_x =
      rb_on s (parent_at t.nil up) (root_of t.nil near) (root_of t.nil (join s y cy ky vy mid far))
        cx kx vx

  abbrev pub node_y : RbNode
  node_y = rb_on s x (root_of t.nil mid) (root_of t.nil far) cy ky vy

  abbrev pub RotatedHere : RbTree → Type 0
  RotatedHere t' =
      Rotated s x y (root_of t.nil mid) (parent_at t.nil up) node_x node_y (node_under t.nil y mid)
        (node_above t.nil x up) t t'

  -- The facts about the parts.
  pub record Parts : Type 0 where
    pub x_live : (x == t.nil) ≡ false
    pub y_live : (y == t.nil) ≡ false
    pub x_at : t.mem x ≡ some node_x
    pub y_at : t.mem y ≡ some node_y
    pub near_tree : IsTree t.mem t.nil x near
    pub mid_tree : IsTree t.mem t.nil y mid
    pub far_tree : IsTree t.mem t.nil y far
    pub context : IsContext t.mem t.nil t.root x up
    pub mid_spread : Spread mid
    pub x_near : member x near ≡ false
    pub x_mid : member x mid ≡ false
    pub x_far : member x far ≡ false
    pub x_y : (x == y) ≡ false
    pub y_mid : member y mid ≡ false
    pub y_far : member y far ≡ false
    pub near_others :
        (a : Ptr) → member a near ≡ true → ((a == y) || (member a mid || member a far)) ≡ false
    pub mid_far : (a : Ptr) → member a mid ≡ true → member a far ≡ false
    pub near_up : (a : Ptr) → member a near ≡ true → member_above a up ≡ false
    pub mid_up : (a : Ptr) → member a mid ≡ true → member_above a up ≡ false
    pub far_up : (a : Ptr) → member a far ≡ true → member_above a up ≡ false
    pub x_up : member_above x up ≡ false
    pub y_up : member_above y up ≡ false

  Stands-Parts : Stands t upright up → Parts
  Stands-Parts st =
      let (x_live, x_at, i_near, i_y) =
        IsTree-join s t.mem t.nil (parent_at t.nil up) x cx kx vx near (join s y cy ky vy mid far)
          st.below in
      let (y_live, y_at, i_mid, i_far) = IsTree-join s t.mem t.nil x y cy ky vy mid far i_y in
      let (x_near, x_y', near_y, sp_near, sp_y) =
        Spread-join s x cx kx vx near (join s y cy ky vy mid far) st.spread in
      let (y_mid, y_far, mid_far, sp_mid, sp_far) = Spread-join s y cy ky vy mid far sp_y in
      let inner = λ (a : Ptr). member-join s a y cy ky vy mid far in
      let outer = λ (a : Ptr). member-join s a x cx kx vx near (join s y cy ky vy mid far) in
      let x_others = sym (inner x) ∙ x_y' in
      let x_in = eq_refl x in
      let y_in = eq_refl y in
      record {
        x_live = x_live;
        y_live = y_live;
        x_at = x_at;
        y_at = y_at;
        near_tree = i_near;
        mid_tree = i_mid;
        far_tree = i_far;
        context =
            subst (λ c. IsContext t.mem t.nil t.root c up)
              (root_of-join s t.nil x cx kx vx near (join s y cy ky vy mid far)) st.above;
        mid_spread = sp_mid;
        x_near = x_near;
        x_mid = ground arith;
        x_far = ground arith;
        x_y = ground arith;
        y_mid = y_mid;
        y_far = y_far;
        near_others = λ a i. sym (inner a) ∙ near_y a i;
        mid_far = mid_far;
        near_up = λ a i. st.apart a (outer a ∙ (let j = inner a in ground arith));
        mid_up = λ a i. st.apart a (outer a ∙ (let j = inner a in ground arith));
        far_up = λ a i. st.apart a (outer a ∙ (let j = inner a in ground arith));
        x_up = st.apart x (outer x ∙ ground arith);
        y_up = st.apart y (outer y ∙ (let j = inner y in ground arith));
      }

  Parts-Around :
      Parts
      → ((a : Ptr) → member a mid ≡ true → member_above a up ≡ false)
      → Around s x y
          (root_of t.nil mid)
          (parent_at t.nil up)
          node_x
          node_y
          (node_under t.nil y mid)
          (node_above t.nil x up)
          t
  Parts-Around w apart = record {
    at_x = w.x_at;
    at_y = w.y_at;
    at_b = at_root t.mem t.nil y mid w.mid_tree;
    at_p = at_above t.mem t.nil t.root x up w.context;
    x_son =
        son-far s (parent_at t.nil up) (root_of t.nil near)
          (root_of t.nil (join s y cy ky vy mid far)) cx kx vx
        ∙ root_of-join s t.nil y cy ky vy mid far;
    y_son = son-near s x (root_of t.nil mid) (root_of t.nil far) cy ky vy;
    x_parent =
        parent-rb_on s (parent_at t.nil up) (root_of t.nil near)
          (root_of t.nil (join s y cy ky vy mid far)) cx kx vx;
    x_y = w.x_y;
    x_b = away t.nil x mid w.x_mid;
    y_b = away t.nil y mid w.y_mid;
    x_p = away_above t.nil x up w.x_up;
    y_p = away_above t.nil y up w.y_up;
    p_b = parent_root t.nil mid up apart;
  }

  -- Memory is unchanged at the other nodes.
  RotatedHere-same :
      (t' : RbTree)
      → RotatedHere t'
      → (a : Ptr) → (a == x) ≡ false
      → (a == y) ≡ false
      → member a mid ≡ false
      → member_above a up ≡ false
      → t'.mem a ≡ t.mem a
  RotatedHere-same t' r a o_x o_y o_mid o_up =
      r.rest a o_x o_y (away t.nil a mid o_mid) (away_above t.nil a up o_up)

  turned-IsTree :
      (t' : RbTree) → RotatedHere t' → Parts → IsTree t'.mem t.nil (parent_at t.nil up) turned
  turned-IsTree t' r w =
      let p = parent_at t.nil up in
      let same = RotatedHere-same t' r in
      let y_at : t'.mem y
          ≡ some (
              rb_on s p (root_of t.nil (join s x cx kx vx near mid)) (root_of t.nil far) cy ky vy) =
        r.up
        ∙ ap some (raised s x p (root_of t.nil mid) x (root_of t.nil far) cy ky vy)
        ∙ ap (λ c. some (rb_on s p c (root_of t.nil far) cy ky vy))
            (sym (root_of-join s t.nil x cx kx vx near mid)) in
      let x_at : t'.mem x ≡ some (rb_on s y (root_of t.nil near) (root_of t.nil mid) cx kx vx) =
        r.down
        ∙ ap some (
            lowered s p y (root_of t.nil near) (root_of t.nil (join s y cy ky vy mid far))
              (root_of t.nil mid) cx kx vx) in
      let near' : IsTree t'.mem t.nil x near =
        IsTree-frame t.mem t'.mem t.nil x near
          (λ a i.
            let o = w.near_others a i in
            same a (member-other a x near i w.x_near) (ground arith) (ground arith) (w.near_up a i))
          w.near_tree in
      let far' : IsTree t'.mem t.nil y far =
        IsTree-frame t.mem t'.mem t.nil y far
          (λ a i.
            same a (member-other a x far i w.x_far) (member-other a y far i w.y_far)
              (not_mid w a i (Bool-cases (member a mid))) (w.far_up a i))
          w.far_tree in
      let mid' : IsTree t'.mem t.nil x mid =
        reparent t.mem t'.mem t.nil y x mid w.mid_tree w.mid_spread r.inner (λ a i o.
          r.rest a (member-other a x mid i w.x_mid) (member-other a y mid i w.y_mid) (ground arith)
            (away_above t.nil a up (w.mid_up a i))) in
      join-IsTree s t'.mem t.nil p y cy ky vy (join s x cx kx vx near mid) far w.y_live y_at
        (join-IsTree s t'.mem t.nil y x cx kx vx near mid w.x_live x_at near' mid') far'
    where
      not_mid :
          Parts
          → (a : Ptr) → member a far ≡ true
          → (member a mid ≡ true) ⊎ (member a mid ≡ false)
          → member a mid ≡ false
      not_mid w a i (inl j) = let h = w.mid_far a j in cc
      not_mid w a i (inr j) = j

  turned-IsContext :
      (t' : RbTree) → RotatedHere t' → Parts → SpreadAbove up → IsContext t'.mem t.nil t'.root y up
  turned-IsContext t' r w sp =
      IsContext-turned t.mem t'.mem t.nil t.root t'.root x y up w.context sp w.x_live w.x_up
        r.new_root r.outer
        (λ a i o.
          r.rest a (above-other a x up i w.x_up) (above-other a y up i w.y_up)
            (away t.nil a mid (not_mid w a i (Bool-cases (member a mid)))) (ground arith))
    where
      not_mid :
          Parts
          → (a : Ptr) → member_above a up ≡ true
          → (member a mid ≡ true) ⊎ (member a mid ≡ false)
          → member a mid ≡ false
      not_mid w a i (inl j) = let h = w.mid_up a j in cc
      not_mid w a i (inr j) = j

  pub member-turned : (a : Ptr) → member a turned ≡ member a upright
  member-turned a =
      member-join s a y cy ky vy (join s x cx kx vx near mid) far
      ∙ ap (λ b. (a == y) || (b || member a far)) (member-join s a x cx kx vx near mid)
      ∙ shuffle (a == x) (a == y) (member a near) (member a mid) (member a far)
      ∙ ap (λ b. (a == x) || (member a near || b)) (sym (member-join s a y cy ky vy mid far))
      ∙ sym (member-join s a x cx kx vx near (join s y cy ky vy mid far))
    where
      shuffle : (b c d e f : Bool) → (c || ((b || (d || e)) || f)) ≡ (b || (d || (c || (e || f))))
      shuffle b c d e f = ground arith

  -- What a rotation leaves: the turned tree in the same place, and the rest of memory.
  pub record Turned (t' : RbTree) : Type 0 where
    pub same_nil : t'.nil ≡ t.nil
    pub below : IsTree t'.mem t.nil (parent_at t.nil up) turned
    pub above : IsContext t'.mem t.nil t'.root y up
    pub order : entries turned ≡ entries upright
    pub same : (a : Ptr) → member a turned ≡ false → member_above a up ≡ false → t'.mem a ≡ t.mem a

  -- At any place of a tree whose nodes are linked to their sons and parents in memory with no
  -- address standing twice: left_rotate (right_rotate) at a node with a right (left) son raises no
  -- fault and leaves the turned tree in the same place, linked both ways up to the root, with the
  -- same entries in the same order, and memory outside the tree and the way up is unchanged.
  pub rotate-Turned : Stands t upright up → Returns Turned (rotate s x t)
  rotate-Turned st =
      let w = Stands-Parts st in
      mono
        (rotate-Rotated s x y (root_of t.nil mid) (parent_at t.nil up) node_x node_y
          (node_under t.nil y mid) (node_above t.nil x up) t (Parts-Around w w.mid_up))
        λ t' r. record {
          same_nil = r.same_nil;
          below = turned-IsTree t' r w;
          above = turned-IsContext t' r w st.spread_above;
          order = entries-join s x cx kx vx y cy ky vy near mid far;
          same = λ a o o_up.
              let inner = member-join s a y cy ky vy mid far in
              let outer = member-join s a x cx kx vx near (join s y cy ky vy mid far) in
              let o' = sym (member-turned a) ∙ o in
              RotatedHere-same t' r a (ground arith) (ground arith) (ground arith) o_up;
        }
