-- ===== src/Recorder/Documents/Memory.antt =====
-- A database, a JSON reader, files and processes in memory: the assumptions can be met.
use mathlib.Core.List.{map}
use record_lib.Base.{
  ℕ, suc, ◌≡◌, refl, Bool, true, false, ◌||◌, Option, some, none, List, [], ◌∷◌, if◌then◌else◌,
  arith, Bool-cases, inl, inr, ◌==◌,
}
use record_lib.Conf.Parser.{bytes_eq}
use record_lib.Recorder.{Bytes, Value, utf8, int32, Bson, parent, Platform}
use record_lib.Recorder.Documents.{
  field, matches, count, matching, changed, Inserted, Removed, Updated, Single, hit, missed, done,
  IsLawful,
}

-- The names of the files and directories, and the numbers of the processes that live.
pub record System : Type 0 where
  pub names : List Bytes
  pub live : List ℕ
  pub next_pid : ℕ

abbrev pub named : Bytes → List Bytes → Bool
named n [] = false
named n (m ∷ names) = bytes_eq n m || named n names

abbrev pub lives : ℕ → List ℕ → Bool
lives n [] = false
lives n (m ∷ live) = n == m || lives n live

abbrev killed : ℕ → List ℕ → List ℕ
killed n [] = []
killed n (m ∷ live) = if n == m then live else m ∷ killed n live

abbrev as_text : Option Value → Option Bytes
as_text none = some []
as_text (some (utf8 s)) = some s
as_text (some v) = none

abbrev as_number : Option Value → Option ℕ
as_number none = some 0
as_number (some (int32 n)) = some n
as_number (some v) = none

abbrev remove_first : Bson → List Bson → List Bson
remove_first q [] = []
remove_first q (d ∷ ds) = if matches q d then ds else d ∷ remove_first q ds

abbrev update_first : Bson → Bson → List Bson → List Bson
update_first q change [] = []
update_first q change (d ∷ ds) =
    if matches q d then changed change d ∷ ds else d ∷ update_first q change ds

-- A text is a document, or is refused. The server has the number 1.
abbrev pub memory : Platform
memory = record {
  Text = Option Bson;
  Root = Bson;
  Db = List Bson;
  Sys = System;
  empty_text = none;
  parse = λ t. t;
  as_string = λ d k. as_text (field k d);
  as_int = λ d k. as_number (field k d);
  client_new = λ a. true;
  find = λ q db. map some (matching q db);
  insert = λ d db. (true, d ∷ db);
  update = λ q change db. (true, update_first q change db);
  remove = λ q db. (true, remove_first q db);
  opendir = λ d sys. named d sys.names;
  access = λ d sys. named d sys.names;
  mkdir = λ d sys. record sys { names = d ∷ sys.names };
  open_create = λ d sys. (true, record sys { names = d ∷ sys.names });
  chmod = λ d sys. sys;
  time = λ sys. 1700000000;
  getpid = λ sys. 1;
  fork = λ sys. (
    parent sys.next_pid,
    record sys { live = sys.next_pid ∷ sys.live; next_pid = suc sys.next_pid },
  );
  exec = λ cmd sys. true;
  exists = λ n sys. lives n sys.live;
  interrupt = λ n sys. record sys { live = killed n sys.live };
}

module _ (q d : Bson) (other : matches q d ≡ false) where
  Removed-behind :
      {ds ds' : List Bson} → Single q (Removed q) ds ds' → Single q (Removed q) (d ∷ ds) (d ∷ ds')
  unfolding count
  Removed-behind (hit r) = hit (Removed.there r)
  Removed-behind (missed n) = missed (rw other (omega arith))

  Updated-behind :
      {ds ds' : List Bson} (change : Bson)
      → Single q (Updated q change) ds ds'
      → Single q (Updated q change) (d ∷ ds) (d ∷ ds')
  unfolding count
  Updated-behind change (hit u) = hit (Updated.there u)
  Updated-behind change (missed n) = missed (rw other (omega arith))

pub remove_first-Single : (q : Bson) (ds : List Bson) → Single q (Removed q) ds (remove_first q ds)
unfolding count
remove_first-Single q [] = missed refl
remove_first-Single q (d ∷ ds) = elim (Bool-cases (matches q d)) [
  | inl e ↦ rw e (hit (Removed.here e))
  | inr e ↦ rw e (Removed-behind q d e (remove_first-Single q ds))
]

pub update_first-Single :
    (q change : Bson) (ds : List Bson) → Single q (Updated q change) ds (update_first q change ds)
unfolding count
update_first-Single q change [] = missed refl
update_first-Single q change (d ∷ ds) = elim (Bool-cases (matches q d)) [
  | inl e ↦ rw e (hit (Updated.here e refl))
  | inr e ↦ rw e (Updated-behind q d e change (update_first-Single q change ds))
]

-- The database in memory meets the assumptions.
abbrev pub memory-IsLawful : IsLawful memory
memory-IsLawful = record {
  docs = λ db. db;
  to_json = some;
  find_lem = λ q db. refl;
  insert_lem = λ d db. done Inserted.here;
  remove_lem = λ q db. done (remove_first-Single q db);
  update_lem = λ q change db. done (update_first-Single q change db);
  root_of = λ d. d;
  parse-to_json = λ d. refl;
  as_string-root_of = λ d k s h. rw h refl;
  as_int-root_of = λ d k n h. rw h refl;
}
