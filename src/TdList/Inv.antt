-- ===== src/TdList/Inv.antt =====
-- What a list stands for: the cells in order, and the invariant of its links and count.
use record_lib.Base.{◌≡◌, ◌≢◌, ◌%◌, some, [], u32_mod, refl, length}
use record_lib.Links.{Ptr, null, Node, Heap}
use record_lib.Links.Seg.{Cells, first, last, Distinct, Seg}
use record_lib.TdList.{TdList, empty}

module _ {A : Type 0} where
  pub record IsList (s : TdList A) (xs : Cells A) : Type 0 where
    pub chain : Seg s.heap null null xs
    pub distinct : Distinct xs
    pub head : s.head ≡ first xs null
    pub tail : s.tail ≡ last null xs
    pub count : s.num_nodes ≡ length xs % u32_mod

  -- The address holds a node with the element.
  pub record Holds (h : Heap A) (p : Ptr) (v : A) : Type 0 where
    pub live : p ≢ null
    pub content : Node A
    pub at : h p ≡ some content
    pub element : content.val ≡ v

  pub empty-IsList : (h : Heap A) → IsList (empty h) []
  empty-IsList h = record { chain = tt; distinct = tt; head = refl; tail = refl; count = refl }
