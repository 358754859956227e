-- ===== src/LevelPool/Inv.antt =====
-- The lists of the pools of all levels of src/mem_pool/pure_slab_pool.cpp.
use record_lib.Base.{◌||◌, ◌≡◌, Bool, true, false, List, [], ◌∷◌, ◌++◌}
use record_lib.Links.{Ptr, Heap}
use record_lib.Links.Seg.{Cells, SameOutside}
use record_lib.Links.Back.{Apart, has-left, has-right}
use record_lib.Slab.Inv.{Held, pools_of, cells_of, has_addr, AllPools, AllPools-frame}
use record_lib.LevelPool.{Level}

-- The pools of each level, with their lists.
abbrev pub HeldLevels : Type 0
HeldLevels = List (List Held)

abbrev pub level_cells : HeldLevels → Cells Ptr
level_cells [] = []
level_cells (hs ∷ hss) = cells_of hs ++ level_cells hss

abbrev pub level_addr : Ptr → HeldLevels → Bool
level_addr m [] = false
level_addr m (hs ∷ hss) = has_addr m hs || level_addr m hss

-- Every pool has its lists, no block is on two of them, and no two pools have one address, on
-- whatever levels they are.
abbrev pub AllLevels : Heap Ptr → HeldLevels → Type 0
AllLevels h [] = Unit
AllLevels h (hs ∷ hss) =
    AllPools h hs
    × Apart (cells_of hs) (level_cells hss)
    × ((m : Ptr) → has_addr m hs ≡ true → level_addr m hss ≡ false)
    × AllLevels h hss

abbrev pub Matches : List Level → HeldLevels → Type 0
Matches [] [] = Unit
Matches (l ∷ ls) (hs ∷ hss) = (l.pools ≡ pools_of hs) × Matches ls hss
Matches _ _ = ⊥

pub AllLevels-frame :
    {h g : Heap Ptr} (xs : Cells Ptr) (hss : HeldLevels)
    → SameOutside xs h g
    → Apart (level_cells hss) xs
    → AllLevels h hss
    → AllLevels g hss
AllLevels-frame xs [] same apart all = tt
AllLevels-frame xs (hs ∷ hss) same apart (here, away, unlike, all) = (
  AllPools-frame xs hs same (λ a i. apart a (has-left a (cells_of hs) (level_cells hss) i)) here,
  away,
  unlike,
  AllLevels-frame xs hss same (λ a i. apart a (has-right a (cells_of hs) (level_cells hss) i)) all,
)
