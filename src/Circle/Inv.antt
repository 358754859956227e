-- ===== src/Circle/Inv.antt =====
-- What the list of events of src/base/base_circle.cpp stands for.
use record_lib.Base.{◌≡◌, ◌≢◌, Bool, true, some, [], ◌∷◌}
use record_lib.Links.{Ptr, null, node}
use record_lib.Links.Seg.{Cells, first, Distinct, Seg}
use record_lib.Circle.{IoEvent, Circle}

abbrev pub AllLinked : Cells IoEvent → Type 0
AllLinked [] = Unit
AllLinked ((p, v) ∷ xs) = (v.linked ≡ true) × AllLinked xs

-- The list holds the events in order, and each is marked as linked.
pub record IsEvents (c : Circle) (xs : Cells IoEvent) : Type 0 where
  pub chain : Seg c.heap null null xs
  pub distinct : Distinct xs
  pub head : c.header ≡ first xs null
  pub linked : AllLinked xs

-- An event outside of the list, with its pointers cleared.
pub record IsOut (c : Circle) (p : Ptr) (v : IoEvent) : Type 0 where
  pub live : p ≢ null
  pub at : c.heap p ≡ some (node v null null)

-- The events are linked in order; the list may have lost them if `whole` is false.
pub record IsChain (whole : Bool) (c : Circle) (xs : Cells IoEvent) : Type 0 where
  pub chain : Seg c.heap null null xs
  pub distinct : Distinct xs
  pub head : whole ≡ true → c.header ≡ first xs null
  pub linked : AllLinked xs

pub IsEvents-IsChain :
    {c : Circle} {xs : Cells IoEvent} (whole : Bool) → IsEvents c xs → IsChain whole c xs
IsEvents-IsChain whole is = record {
  chain = is.chain;
  distinct = is.distinct;
  head = λ e. is.head;
  linked = is.linked;
}
