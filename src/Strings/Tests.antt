-- ===== src/Strings/Tests.antt =====
-- Runs of the string helpers, and their theorems at short strings.
use record_lib.Base.{ℕ, ◌≡◌, refl, some, List, [], ◌∷◌}
use record_lib.Strings.{strncpy, write_byte, rn_strncpy}

-- "abc" in an array of five bytes.
abbrev source : List ℕ
source = 97 ∷ 98 ∷ 99 ∷ 0 ∷ 7 ∷ []

abbrev buffer : List ℕ
buffer = 1 ∷ 1 ∷ 1 ∷ 1 ∷ 1 ∷ 1 ∷ []

-- The whole text only if the buffer has no byte to spare.
copies :
    (rn_strncpy buffer 6 source 3 ≡ some (2, 97 ∷ 98 ∷ 0 ∷ 1 ∷ 1 ∷ 1 ∷ []))
    × (rn_strncpy buffer 4 source 3 ≡ some (3, 97 ∷ 98 ∷ 99 ∷ 0 ∷ 1 ∷ 1 ∷ []))
unfolding rn_strncpy strncpy write_byte
copies = (refl, refl)
