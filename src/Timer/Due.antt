-- ===== src/Timer/Due.antt =====
-- When the timers of src/timer/pure_timer.cpp are due.
use mathlib.Core.Path.{subst}
use record_lib.Base.{
  ℕ, suc, ◌+◌, ◌-◌, ◌%◌, ◌≤◌, ◌<◌, ◌≡◌, refl, Bool, true, false, Option, none, some, ◌==◌, ltb,
  if◌then◌else◌, u32_mod, arith, Returns, returns, bind, returned, eq_refl, ◌∷◌, inl, inr,
  Bool-cases,
}
use record_lib.Links.{Ptr}
use record_lib.RbTree.{RbNode}
use record_lib.RbTree.Search.{tree_minimum_node}
use record_lib.RbTree.Shape.{Tree, leaf, branch, entries, height, AllKeys}
use record_lib.RbTree.Found.{
  has_entry, has_entry-append, Holds, Minimum, tree_minimum_key-Minimum, tree_minimum-IsLeast,
}
use record_lib.Timer.{Timer, u64_mod, pure_find_timer, is_due, pure_timer_process}

is_due-later :
    (key now : ℕ) → now < u64_mod → now < key → key < now + 2147483648 → is_due key now ≡ false
unfolding is_due
is_due-later key now small late near =
    let e : ((key + u64_mod) - now) % u32_mod ≡ key - now = omega arith in rw e (ground arith)

-- A key that some entry has, or 0 for an empty tree.
abbrev IsKey : Tree → ℕ → Type 0
IsKey leaf k = k ≡ 0
IsKey (branch a c j v l r) k = (ev : ℕ) × (has_entry k ev (entries (branch a c j v l r)) ≡ true)

-- The wait passes no timer, ends at one of them, and the tree is as it was.
abbrev pub Waits : (now : ℕ) → Tree → Timer → ℕ × Timer → Type 0
Waits now tree s (wait, s') =
    AllKeys (λ k. wait ≤ k - now) tree
    × IsKey tree s'.node_value
    × (wait ≡ s'.node_value - now)
    × (s'.prbt ≡ s.prbt)

AllKeys-map : {P Q : ℕ → Type 0} → ((k : ℕ) → P k → Q k) → (t : Tree) → AllKeys P t → AllKeys Q t
AllKeys-map f leaf all = tt
AllKeys-map f (branch a c k v l r) (here, al, ar) =
    (f k here, AllKeys-map f l al, AllKeys-map f r ar)

until : (k now : ℕ) → (if ltb now k then k - now else 0) ≡ k - now
until k now = ground arith

-- In a tree of timers whose keys are in order, with more fuel than nodes: pure_find_timer returns
-- a wait that is at most the time left to every timer, is the time left to the one it names as
-- node_value (0 if that is past or there is no timer), and leaves the tree as it is.
pub pure_find_timer-Waits :
    (depth now : ℕ) (s : Timer) (tree : Tree)
    → Holds s.prbt tree
    → height tree < depth
    → Returns (Waits now tree s) (pure_find_timer depth now s)
unfolding pure_find_timer
pure_find_timer-Waits depth now s leaf is enough =
    bind (tree_minimum_key-Minimum depth s.prbt leaf is enough)
      λ (k, o) (e, nothing). returns (tt, e, until k now, refl)
pure_find_timer-Waits depth now s (branch a c j v l r) is enough =
    bind (tree_minimum_key-Minimum depth s.prbt (branch a c j v l r) is enough) found
  where
    found :
        (m : ℕ × Option ℕ)
        → Minimum (branch a c j v l r) m
        → Returns
            (Waits now (branch a c j v l r) s)
            (some (if ltb now m.0 then m.0 - now else 0, record s { node_value = m.0 }))
    found (k, none) least = absurd least
    found (k, some ev) (held, all) = returns (
      AllKeys-map (λ i le. rw (until k now) (omega arith)) (branch a c j v l r) all,
      (ev, held),
      until k now,
      refl,
    )

-- The predicate holds of the key of every entry.
AllKeys-entry :
    (P : ℕ → Type 0) (key val : ℕ) (t : Tree)
    → AllKeys P t
    → has_entry key val (entries t) ≡ true
    → P key
AllKeys-entry P key val leaf all has = absurd (ground arith)
AllKeys-entry P key val (branch a c k v l r) (here, al, ar) has =
    let e = has_entry-append key val (entries l) ((k, v) ∷ entries r) in
    elim (Bool-cases (has_entry key val (entries l))) [
      | inl there ↦ AllKeys-entry P key val l al there
      | inr above ↦ elim (Bool-cases (key == k)) [
        | inl same ↦ subst P (let e : k ≡ key = ground arith in e) here
        | inr other ↦ AllKeys-entry P key val r ar (ground arith)
      ]
    ]

if_same : {A : Type 0} (b : Bool) (a : A) → (if b then a else a) ≡ a
if_same true a = refl
if_same false a = refl

-- When the tree of the timers holds its nodes in order, its sentinel is in memory, and every
-- timer's time is after the given one by less than 2^31 milliseconds, pure_timer_process, with
-- more fuel for the tree than nodes, runs no handler and changes nothing.
pub pure_timer_process-waits :
    (handle_expire : Ptr → Timer → Option Timer) (fuel depth now : ℕ) (s : Timer) (tree : Tree)
    (sentinel : RbNode)
    → Holds s.prbt tree
    → height tree < depth
    → s.prbt.mem s.prbt.nil ≡ some sentinel
    → now < u64_mod
    → AllKeys (λ k. (now < k) × (k < now + 2147483648)) tree
    → pure_timer_process handle_expire (suc fuel) depth now s ≡ some s
unfolding pure_timer_process tree_minimum_node
pure_timer_process-waits handle_expire fuel depth now s leaf sentinel is enough at small all =
    rw (is.root, eq_refl s.prbt.nil, at, eq_refl s.prbt.nil) refl
pure_timer_process-waits handle_expire fuel depth now s (branch a c j v l r) sentinel is enough at
      small all =
    let t = branch a c j v l r in
    let (x, e, (n, there, held, least)) =
      returned
        (tree_minimum-IsLeast depth s.prbt.nil s.prbt a c j v l r is.nodes is.ordered enough) in
    let (late, near) =
      AllKeys-entry (λ k. (now < k) × (k < now + 2147483648)) n.key n.val t all held in
    simp (is.root, is.nodes.0, e, there, is_due-later n.key now small late near, if_same)
