-- ===== src/Conf/Scan.antt =====
-- The scanning functions of src/conf/pconf.cpp: a name, a value, an array value, and what follows a
-- name.
use record_lib.Base.{ℕ, Bool, false, List, [], ◌∷◌, ◌==◌, if◌then◌else◌}
use record_lib.Conf.{State, Outcome, ok, ◌>>=◌, lift}
use record_lib.Conf.Chars.{valid_name, valid_value, jump, span}

unfoldable pub jumpspace : State → State
jumpspace s =
    let (text, linenum) = jump false s.text s.linenum in record s { text = text; linenum = linenum }

-- What a scan leaves in the caller's pointer: nothing was written, NULL, or the start and length.
pub data Found : Type 0 where
  unset missing : Found
  found : List ℕ → Found

abbrev pub found_of : List ℕ → Found
found_of [] = missing
found_of (c ∷ cs) = found (c ∷ cs)

unfoldable pub name_at : State → List ℕ → Outcome (State × Found)
name_at s [] = ok (s, unset)
name_at s (c ∷ cs) = do
  (name, rest) ← lift (span valid_name (c ∷ cs))
  ok (record s { text = rest }, found_of name)

unfoldable pub find_valid_name : State → Outcome (State × Found)
unfolding name_at
find_valid_name s₀ = let s = jumpspace s₀ in name_at s s.text

-- The `;` behind a value.
unfoldable pub semicolon : List ℕ → State → List ℕ → State × Found
semicolon value s [] = (s, missing)
semicolon value s (c ∷ cs) =
    if c == b';' then (record s { text = cs }, found value) else (s, missing)

unfoldable pub value_end : State → List ℕ → List ℕ → State × Found
unfolding semicolon
value_end s [] rest = (s, missing)
value_end s (c ∷ cs) rest =
    let after = jumpspace (record s { text = rest }) in semicolon (c ∷ cs) after after.text

-- The callers set the pointer to NULL first.
unfoldable pub value_at : State → List ℕ → Outcome (State × Found)
unfolding value_end
value_at s [] = ok (s, missing)
value_at s (c ∷ cs) = do
  (value, rest) ← lift (span valid_value (c ∷ cs))
  ok (value_end s value rest)

unfoldable pub find_valid_value : State → Outcome (State × Found)
unfolding value_at
find_valid_value s₀ = let s = jumpspace s₀ in value_at s s.text

unfoldable pub array_value_end : State → List ℕ → List ℕ → State × Found
array_value_end s [] rest = (s, missing)
array_value_end s (c ∷ cs) rest = (jumpspace (record s { text = rest }), found (c ∷ cs))

unfoldable pub array_value_at : State → List ℕ → Outcome (State × Found)
unfolding array_value_end
array_value_at s [] = ok (s, missing)
array_value_at s (c ∷ cs) = do
  (value, rest) ← lift (span valid_value (c ∷ cs))
  ok (array_value_end s value rest)

unfoldable pub find_valid_array_value : State → Outcome (State × Found)
unfolding array_value_at
find_valid_array_value s₀ = let s = jumpspace s₀ in array_value_at s s.text

-- Whether the text starts with a character; at `end` it does not.
abbrev pub starts_with : ℕ → List ℕ → Bool
starts_with x [] = false
starts_with x (c ∷ cs) = c == x

-- The position stays, but the lines that were passed over are counted.
unfoldable pub is_sub_node : State → Bool × State
is_sub_node s =
    let after = jumpspace s in (starts_with b'{' after.text, record s { linenum = after.linenum })

unfoldable pub is_array_node : State → Bool × State
is_array_node s =
    let after = jumpspace s in (starts_with b'[' after.text, record s { linenum = after.linenum })
