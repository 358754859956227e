-- ===== src/RbTree/Found.antt =====
-- What the reads of the tree of src/datas/pure_rbtree.cpp find in a tree whose keys are in order.
use record_lib.Base.{
  ℕ, zero, suc, ◌≤◌, ◌<◌, ◌≡◌, ◌⊎◌, ◌==◌, ◌||◌, ◌&&◌, Bool, true, false, refl, Option, some, none,
  List, [], ◌∷◌, ◌++◌, ltb, arith, Returns, returns, bind, mono, inl, inr, Bool-cases, eq_refl,
}
use record_lib.Links.{Ptr, null}
use record_lib.RbTree.{RbNode, RbTree, Memory}
use record_lib.RbTree.Search.{
  search_loop, rb_search, rb_search_key, read_node, tree_minimum, tree_minimum_key,
}
use record_lib.RbTree.Shape.{Tree, leaf, branch, root_of, IsTree, entries, height, AllKeys, Ordered}

abbrev has_key : ℕ → List (ℕ × ℕ) → Bool
has_key key [] = false
has_key key ((k, v) ∷ es) = (key == k) || has_key key es

abbrev pub has_entry : ℕ → ℕ → List (ℕ × ℕ) → Bool
has_entry key val [] = false
has_entry key val ((k, v) ∷ es) = ((key == k) && (val == v)) || has_entry key val es

has_key-append :
    (key : ℕ) (es fs : List (ℕ × ℕ)) → has_key key (es ++ fs) ≡ (has_key key es || has_key key fs)
has_key-append key [] fs = refl
has_key-append key ((k, v) ∷ es) fs = let ih = has_key-append key es fs in ground arith

pub has_entry-append :
    (key val : ℕ) (es fs : List (ℕ × ℕ))
    → has_entry key val (es ++ fs) ≡ (has_entry key val es || has_entry key val fs)
has_entry-append key val [] fs = refl
has_entry-append key val ((k, v) ∷ es) fs = let ih = has_entry-append key val es fs in ground arith

keys_above :
    (key k : ℕ) (t : Tree) → key < k → AllKeys (λ j. k ≤ j) t → has_key key (entries t) ≡ false
keys_above key k leaf lt all = refl
keys_above key k (branch a c k' v l r) lt (ge, al, ar) =
    let el = keys_above key k l lt al in
    let er = keys_above key k r lt ar in
    let ap = has_key-append key (entries l) ((k', v) ∷ entries r) in ground arith

keys_below :
    (key k : ℕ) (t : Tree) → k < key → AllKeys (λ j. j ≤ k) t → has_key key (entries t) ≡ false
keys_below key k leaf lt all = refl
keys_below key k (branch a c k' v l r) lt (le, al, ar) =
    let el = keys_below key k l lt al in
    let er = keys_below key k r lt ar in
    let ap = has_key-append key (entries l) ((k', v) ∷ entries r) in ground arith

-- The sentinel for a key that is not there, or a node in memory with an entry of the key.
pub data Answers (tr : RbTree) (key : ℕ) (es : List (ℕ × ℕ)) : Ptr → Type 0 where
  absent : {x : Ptr} → x ≡ tr.nil → has_key key es ≡ false → Answers tr key es x
  present :
      {x : Ptr} (n : RbNode)
      → (x == tr.nil) ≡ false
      → tr.mem x ≡ some n
      → has_entry key n.val es ≡ true
      → Answers tr key es x

answer_left :
    (tr : RbTree) (key k v : ℕ) (es fs : List (ℕ × ℕ)) (x : Ptr)
    → key < k
    → has_key key fs ≡ false
    → Answers tr key es x
    → Answers tr key (es ++ ((k, v) ∷ fs)) x
answer_left tr key k v es fs x lt away (absent e gone) =
    absent e (let ap = has_key-append key es ((k, v) ∷ fs) in ground arith)
answer_left tr key k v es fs x lt away (present n live at held) =
    present n live at (let ap = has_entry-append key n.val es ((k, v) ∷ fs) in ground arith)

answer_right :
    (tr : RbTree) (key k v : ℕ) (es fs : List (ℕ × ℕ)) (x : Ptr)
    → k < key
    → has_key key es ≡ false
    → Answers tr key fs x
    → Answers tr key (es ++ ((k, v) ∷ fs)) x
answer_right tr key k v es fs x lt away (absent e gone) =
    absent e (let ap = has_key-append key es ((k, v) ∷ fs) in ground arith)
answer_right tr key k v es fs x lt away (present n live at held) =
    present n live at (let ap = has_entry-append key n.val es ((k, v) ∷ fs) in ground arith)

search_loop-Answers :
    (fuel key p : ℕ) (tr : RbTree) (t : Tree)
    → IsTree tr.mem tr.nil p t
    → Ordered t
    → height t < fuel
    → Returns (Answers tr key (entries t)) (search_loop fuel key (root_of tr.nil t) tr)
unfolding search_loop
search_loop-Answers zero key p tr t is ord enough = absurd (omega arith)
search_loop-Answers (suc k) key p tr leaf is ord enough =
    rw (eq_refl tr.nil) (returns (absent refl refl))
search_loop-Answers (suc k) key p tr (branch a c k' v l r) (live, at, il, ir) (le, ge, ol, or)
      enough =
    elim (Bool-cases (key == k')) [
      | inl e ↦
          rw (live, at, e)
            (returns (
              present _ live at (
                let ap = has_entry-append key v (entries l) ((k', v) ∷ entries r) in
                ground (arith, eq_refl v))))
      | inr e ↦ elim (Bool-cases (ltb key k')) [
        | inl lt ↦
            let lower : key < k' = ground arith in
            rw (live, at, e, lt)
              (mono (search_loop-Answers k key a tr l il ol (omega arith)) λ x h.
                answer_left tr key k' v (entries l) (entries r) x lower
                  (keys_above key k' r lower ge) h)
        | inr gt ↦
            let upper : k' < key = ground arith in
            rw (live, at, e, gt)
              (mono (search_loop-Answers k key a tr r ir or (omega arith)) λ x h.
                answer_right tr key k' v (entries l) (entries r) x upper
                  (keys_below key k' l upper le) h)
      ]
    ]

-- A tree in memory whose keys are in order.
pub record Holds (t : RbTree) (tree : Tree) : Type 0 where
  pub root : t.root ≡ root_of t.nil tree
  pub nodes : IsTree t.mem t.nil t.nil tree
  pub ordered : Ordered tree

-- The value of an entry of the key; or NULL, and no entry has the key.
abbrev pub Reads : ℕ → List (ℕ × ℕ) → Ptr → Type 0
Reads key es val = (has_entry key val es ≡ true) ⊎ ((val ≡ null) × (has_key key es ≡ false))

answer_read :
    (t : RbTree) (key : ℕ) (es : List (ℕ × ℕ)) (x : Ptr)
    → Answers t key es x
    → Returns (Reads key es) (read_node x t)
unfolding read_node
answer_read t key es x (absent e gone) = rw (e, eq_refl t.nil) (returns (inr (refl, gone)))
answer_read t key es x (present n live at held) = rw (live, at) (returns (inl held))

-- In a tree in memory whose keys are in order, with more fuel than nodes: rb_search_key returns
-- the data of an entry of the key, or it returns NULL and no entry has the key. An entry may hold
-- NULL itself, so that NULL alone does not tell which.
pub rb_search_key-Reads :
    (fuel key : ℕ) (t : RbTree) (tree : Tree)
    → Holds t tree
    → height tree < fuel
    → Returns (Reads key (entries tree)) (rb_search_key fuel key t)
unfolding rb_search_key rb_search
rb_search_key-Reads fuel key t tree is enough = simp is.root (
    bind (search_loop-Answers fuel key t.nil t tree is.nodes is.ordered enough)
      λ x h. answer_read t key (entries tree) x h)

keys_mono : (j k : ℕ) (t : Tree) → j ≤ k → AllKeys (λ i. k ≤ i) t → AllKeys (λ i. j ≤ i) t
keys_mono j k leaf le all = tt
keys_mono j k (branch a c k' v l r) le (here, al, ar) =
    (omega arith, keys_mono j k l le al, keys_mono j k r le ar)

-- A node with an entry of the tree, whose key is below no other.
abbrev pub IsLeast : Memory → Tree → Ptr → Type 0
IsLeast mem t x =
    (n : RbNode) × (mem x ≡ some n)
    × (has_entry n.key n.val (entries t) ≡ true)
    × AllKeys (λ i. n.key ≤ i) t

pub tree_minimum-IsLeast :
    (fuel p : ℕ) (tr : RbTree) (a c k v : ℕ) (l r : Tree)
    → IsTree tr.mem tr.nil p (branch a c k v l r)
    → Ordered (branch a c k v l r)
    → height (branch a c k v l r) < fuel
    → Returns (IsLeast tr.mem (branch a c k v l r)) (tree_minimum fuel a tr)
unfolding tree_minimum
tree_minimum-IsLeast zero p tr a c k v l r is ord enough = absurd (omega arith)
tree_minimum-IsLeast (suc f) p tr a c k v leaf r (live, at, il, ir) (le, ge, ol, or) enough =
    rw (at, eq_refl tr.nil)
      (returns (_, at, ground (arith, eq_refl k, eq_refl v), (omega arith, tt, ge)))
tree_minimum-IsLeast (suc f) p tr a c k v (branch a' c' k' v' l' r') r (live, at, il, ir)
      (le, ge, ol, or) enough =
    rw (at, il.0)
      (mono (tree_minimum-IsLeast f a tr a' c' k' v' l' r' il ol (omega arith))
        λ x (n, at', held, all). (
          n,
          at',
          (let ap =
                has_entry-append n.key n.val (entries (branch a' c' k' v' l' r'))
                  ((k, v) ∷ entries r) in
              ground arith),
          let first : n.key ≤ k = omega (arith, all.0, le.0) in
              (first, all, keys_mono n.key k r first ge),
        ))

-- The least key with a value of it; nothing of an empty tree.
abbrev pub Minimum : Tree → ℕ × Option ℕ → Type 0
Minimum leaf (k, o) = (k ≡ 0) × (o ≡ none)
Minimum (branch a c j w l r) (k, none) = ⊥
Minimum (branch a c j w l r) (k, some v) =
    (has_entry k v (entries (branch a c j w l r)) ≡ true)
    × AllKeys (λ i. k ≤ i) (branch a c j w l r)

-- In a tree in memory whose keys are in order, with more fuel than nodes: tree_minimum_key returns
-- a key and value of an entry, and no key of the tree is below it; for an empty tree it returns 0
-- and no value.
pub tree_minimum_key-Minimum :
    (fuel : ℕ) (t : RbTree) (tree : Tree)
    → Holds t tree
    → height tree < fuel
    → Returns (Minimum tree) (tree_minimum_key fuel t)
unfolding tree_minimum_key
tree_minimum_key-Minimum fuel t leaf is enough = rw (is.root, eq_refl t.nil) (returns (refl, refl))
tree_minimum_key-Minimum fuel t (branch a c k v l r) is enough =
    simp (is.root, is.nodes.0)
      (bind (tree_minimum-IsLeast fuel t.nil t a c k v l r is.nodes is.ordered enough)
        λ x (n, at, held, all). rw at (returns (held, all)))
