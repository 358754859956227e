-- ===== src/Circle/Walk.antt =====
-- `traversal` of src/base/base_circle.cpp, with the close of a connection of
-- src/base/base_connect.cpp, over handlers that may take out other events and add new ones: the cursor
-- keeps up with what is removed.
use record_lib.Base.{
  ℕ, ◌≤◌, ◌≡◌, ◌≢◌, Bool, false, true, some, ◌∷◌, ◌++◌, Option, Returns, ◌==◌, ◌>>=◌, length,
}
use record_lib.Links.{Ptr, null, node}
use record_lib.Links.Seg.{Cells, first, last, Seg-back}
use record_lib.Circle.{IoEvent, Circle}
use record_lib.Circle.Inv.{IsChain}
use record_lib.Circle.Closes.{Walks, Placed}
use record_lib.Circle.Traversal.{Answer, failure, retry, success, Connect, Loop}

-- The cursor is behind the events of some front.
data Behind (whole : Bool) (n : ℕ) (c : Circle) : Type 0 where
  behind : (xs ys : Cells IoEvent) → Walks whole n c xs ys → Behind whole n c

-- The event `p` stands in front of the cursor.
pub data At (whole : Bool) (p : Ptr) (n : ℕ) (c : Circle) : Type 0 where
  at :
      (xs : Cells IoEvent) (v : IoEvent) (ys : Cells IoEvent)
      → IsChain whole c (xs ++ (p, v) ∷ ys)
      → c.cursor ≡ first ys null
      → length ys ≤ n
      → At whole p n c

module _ {W : Type 0} where
  -- So too, where both events of its connection, which has its circle, are placed.
  pub data Closable (whole : Bool) (p : Ptr) (n : ℕ) (s : Loop W) : Type 0 where
    closable :
        (xs : Cells IoEvent) (v : IoEvent) (ys : Cells IoEvent) (m : Connect)
        → IsChain whole s.circle (xs ++ (p, v) ∷ ys)
        → s.circle.cursor ≡ first ys null
        → length ys ≤ n
        → s.connects v.connect ≡ some m
        → m.pc ≡ true
        → (m.wrev == m.rdev) ≡ false
        → Placed whole s.circle (xs ++ (p, v) ∷ ys) m.rdev
        → Placed whole s.circle (xs ++ (p, v) ∷ ys) m.wrev
        → Closable whole p n s

  -- What `io_process` leaves: the event in front of the cursor, and a connection to close if it fails.
  abbrev pub Processed : Bool → Ptr → ℕ → Answer × Loop W → Type 0
  Processed whole p n (failure, s) = Closable whole p n s
  Processed whole p n (retry, s) = At whole p n s.circle
  Processed whole p n (success, s) = At whole p n s.circle

  -- The chain is in order, the list's own if it is whole, and the cursor is at its end.
  abbrev pub Ended : Bool → Loop W → Type 0
  Ended whole s = (xs : Cells IoEvent) × IsChain whole s.circle xs × (s.circle.cursor ≡ null)

module _ {whole : Bool} {c : Circle} (xs : Cells IoEvent) (p : Ptr) (v : IoEvent)
    (ys : Cells IoEvent) (is : IsChain whole c (xs ++ (p, v) ∷ ys)) where
  pub here : (p ≢ null) × (c.heap p ≡ some (node v (last null xs) (first ys null)))
  here =
      let (live, held, rest) = Seg-back c.heap null null xs ((p, v) ∷ ys) is.chain in (live, held)

-- The handler keeps the chain, the event it is for and the cursor's place.
abbrev pub Handles :
    {W : Type 0} → (io_process : Ptr → Loop W → Option (Answer × Loop W)) → Bool → Type 0
Handles {W} io_process whole =
    (p : Ptr) (n : ℕ) (s : Loop W)
    → At whole p n s.circle
    → Returns (Processed whole p n) (io_process p s)
