-- ===== src/Conf.antt =====
-- The configuration parser of src/conf/pconf.cpp. Chars and Scan have the scanning, Parser the
-- recursive descent, Lookup the reads of the tree. The data they share stands here.
pub mod Chars
pub mod Scan
pub mod Parser
pub mod Lookup
pub mod Text
pub mod Scanned
pub mod Entries
pub mod Rounds
pub mod RoundTrip
pub mod Yields
pub mod Reads
pub mod Fuel
pub mod Termination
pub mod Found
pub mod Stored
pub mod Buffer
mod Tests
use record_lib.Base.{ℕ, Option, none, some, List, []}

-- `conf_node_type`
pub data NodeType : Type 0 where
  empty_t char_t subnode_t proc_mod_t array_t array_ele cmd_t : NodeType

-- A node of the tree behind its pointer. The fields `modn` and `var` are the strings in their buffers.
pub data Conf : Type 0 where
  null : Conf
  conf_node : (modn var : List ℕ) (ntype : NodeType) (smodlh next : Conf) → Conf

-- `new_node`, all zero.
abbrev pub blank : Conf
blank = conf_node [] [] NodeType.empty_t null null

-- The parser: the text from the read position on, and its counters.
pub record State : Type 0 where
  pub text : List ℕ
  pub linenum : ℕ
  pub level : ℕ

abbrev pub at : List ℕ → ℕ → ℕ → State
at text linenum level = record { text = text; linenum = linenum; level = level }

-- A parsing function returns a position, or NULL, or reads outside of an array.
pub data Outcome {ℓ} (A : Type ℓ) : Type ℓ where
  ok : A → Outcome A
  failed : Outcome A
  fault : Outcome A
  out_of_fuel : Outcome A

infixl 5 ◌>>=◌
abbrev pub ◌>>=◌ {ℓ κ} : {A : Type ℓ} {B : Type κ} → Outcome A → (A → Outcome B) → Outcome B
ok a >>= f = f a
failed >>= f = failed
fault >>= f = fault
out_of_fuel >>= f = out_of_fuel

abbrev pub lift {ℓ} : {A : Type ℓ} → Option A → Outcome A
lift none = fault
lift (some a) = ok a
