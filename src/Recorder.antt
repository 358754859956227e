-- ===== src/Recorder.antt =====
-- The recording service of src/app: its data, and what it takes from the libraries and from the
-- operating system.
pub mod Adaptor
pub mod Files
pub mod Store
pub mod Process
pub mod Http
pub mod Documents
mod Tests
use Prim.Native.String
use Prim.Native.String.{String}
use Prim.Native.Char.{code}
use record_lib.Base.{ℕ, ◌&&◌, Bool, true, false, Option, List, [], ◌∷◌, ◌==◌, if◌then◌else◌}

abbrev pub Bytes : Type 0
Bytes = List ℕ

-- The bytes of a literal.
abbrev pub codes : String → Bytes
codes String.[] = []
codes (String.◌∷◌ c s) = code c ∷ codes s

-- `c_str()`, as a reader of a C string takes it: up to the first NUL.
unfoldable pub c_str : Bytes → Bytes
c_str [] = []
c_str (c ∷ cs) = let rest = c_str cs in if c == 0 then [] else c ∷ rest

pub record ProcessInfo : Type 0 where
  pub sid : Bytes
  pub pid : ℕ
  pub ppid : ℕ
  pub src_url : Bytes
  pub m3u8_path : Bytes
  pub type : Bytes
  pub status : Bytes
  pub host : Bytes

pub record M3u8Param : Type 0 where
  pub path : Bytes
  pub sid : Bytes
  pub file_path : Bytes

pub record AppData : Type 0 where
  pub host : Bytes
  pub port : Bytes
  pub root_path : Bytes

pub data ErrorCode : Type 0 where
  error_ok : ErrorCode
  stream_exist : ErrorCode
  process_info_none : ErrorCode
  get_collection_failed : ErrorCode
  fork_failed : ErrorCode
  stream_not_exist : ErrorCode
  mongodb_error : ErrorCode
  json_parser_error : ErrorCode
  internal_error : ErrorCode
  port_unspecified : ErrorCode
  root_path_unspecified : ErrorCode
  create_m3u8_file : ErrorCode
  json_parser_exception : ErrorCode

-- What `%d` prints of a code.
unfoldable pub error_value : ErrorCode → ℕ
error_value error_ok = 0
error_value stream_exist = 1
error_value process_info_none = 2
error_value get_collection_failed = 3
error_value fork_failed = 4
error_value stream_not_exist = 5
error_value mongodb_error = 6
error_value json_parser_error = 7
error_value internal_error = 8
error_value port_unspecified = 9
error_value root_path_unspecified = 10
error_value create_m3u8_file = 11
error_value json_parser_exception = 12

-- The values of a document that the service builds: `document` has one field.
pub data Value : Type 0 where
  utf8 : Bytes → Value
  int32 : ℕ → Value
  document : String → Value → Value

abbrev pub Bson : Type 0
Bson = List (String × Value)

-- The answer of `fork`.
pub data Forked : Type 0 where
  failed : Forked
  parent : (child_pid : ℕ) → Forked
  child : Forked

-- The database driver, the JSON reader and the operating system. A `Text` is a JSON text, `Db`
-- what the database holds, `Sys` the files and the processes.
pub record Platform : Type 1 where
  pub Text : Type 0
  pub Root : Type 0
  pub Db : Type 0
  pub Sys : Type 0
  -- A new string, before a text is assigned to it.
  pub empty_text : Text
  -- jsoncpp: a text is refused, and a member of another kind throws.
  pub parse : Text → Option Root
  pub as_string : Root → String → Option Bytes
  pub as_int : Root → String → Option ℕ
  -- mongoc: a client for an address or NULL, and the calls on a collection.
  pub client_new : Bytes → Bool
  pub find : Bson → Db → List Text
  pub insert : Bson → Db → Bool × Db
  pub update : Bson → Bson → Db → Bool × Db
  pub remove : Bson → Db → Bool × Db
  -- Files: `access` is whether the name exists, `open_create` whether it gives a descriptor.
  pub opendir : Bytes → Sys → Bool
  pub access : Bytes → Sys → Bool
  pub mkdir : Bytes → Sys → Sys
  pub open_create : Bytes → Sys → Bool × Sys
  pub chmod : Bytes → Sys → Sys
  pub time : Sys → ℕ
  -- Processes: `exec` is whether the image is replaced, `exists` is `kill(pid, 0) == 0`.
  pub getpid : Sys → ℕ
  pub fork : Sys → Forked × Sys
  pub exec : Bytes → Sys → Bool
  pub exists : ℕ → Sys → Bool
  pub interrupt : ℕ → Sys → Sys

-- What the service changes: the database, the files and processes, and the queue of requests.
pub record State (p : Platform) : Type 0 where
  pub db : p.Db
  pub sys : p.Sys
  pub queue : List ProcessInfo
