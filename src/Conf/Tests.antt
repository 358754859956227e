-- ===== src/Conf/Tests.antt =====
-- Runs of the configuration parser, and its theorems at a small file.
use record_lib.Base.{
  ℕ, zero, suc, ◌*◌, ◌≡◌, refl, Option, some, none, [], ◌∷◌, arith, false, replicate,
}
use record_lib.Conf.{Conf, conf_node, null, blank, proc_mod_t, char_t, ok}
use record_lib.Conf.Scan.{
  find_valid_name, find_valid_value, find_valid_array_value, is_sub_node, is_array_node, jumpspace,
}
use record_lib.Conf.Parser.{
  parse, parse_main, parse_smodlh, parse_arraylh, sub_loop, array_loop, entry, sub_value,
  main_value, check_keyword,
}
use record_lib.Conf.Lookup.{
  get_proc_mod, get_value_from_node, get_submod_from_node, get_array_from_node,
  get_value_from_array_by_index,
}
use record_lib.Conf.Chars.{valid_name, valid_value, jump, span}
use record_lib.Conf.Text.{
  Bytes, File, nil, value, block, array, process, render_file, file_conf, GoodFile, IsKey, IsValue,
}
use record_lib.Conf.RoundTrip.{parse-render_file}
use record_lib.Conf.Termination.{parse_returns}
use record_lib.Conf.Buffer.{readfile, read_loop, readfile_overruns, Answers, sum}
use record_lib.Conf.Found.{
  assoc, top_values, top_blocks, top_arrays, value_in, ReadsArray, read_values, read_arrays,
}

abbrev ip : Bytes
ip = b'i' ∷ b'p' ∷ []

abbrev address : Bytes
address = b'1' ∷ b'.' ∷ b'2' ∷ []

abbrev db : Bytes
db = b'd' ∷ b'b' ∷ []

-- `ip 1.2;db{ip 1.2;db[1.2,ip]}db[ip]proc db{ip db;}`
abbrev file : File
file = value ip address (
    block db (value ip address (array db (address ∷ ip ∷ []) nil))
      (array db (ip ∷ []) (process db (value ip db nil) nil)))

file-GoodFile : GoodFile file
unfolding valid_name valid_value
file-GoodFile = ground arith

file_runs : parse false 20 (render_file file) ≡ ok (some (file_conf file))
unfolding parse parse_main parse_smodlh parse_arraylh sub_loop array_loop entry sub_value main_value
    find_valid_name find_valid_value find_valid_array_value is_sub_node is_array_node check_keyword
    jumpspace jump span valid_name valid_value
file_runs = refl

parse-render_file_example : parse false 20 (render_file file) ≡ ok (some (file_conf file))
parse-render_file_example = parse-render_file false 20 file file-GoodFile (omega arith)

parse_returns_example :
    (conf : Option Conf) × (parse false 9 (b'i' ∷ b'p' ∷ b' ' ∷ b'1' ∷ b'{' ∷ b'}' ∷ []) ≡ ok conf)
parse_returns_example =
    parse_returns false 9 (b'i' ∷ b'p' ∷ b' ' ∷ b'1' ∷ b'{' ∷ b'}' ∷ []) (omega arith) (omega arith)

ip-IsKey : IsKey ip
unfolding valid_name
ip-IsKey = ground arith

address-IsValue : IsValue address
unfolding valid_value
address-IsValue = ground arith

read_values_example :
    (c : Conf) × (parse false 20 (render_file file) ≡ ok (some c))
    × ((vn : Bytes) → get_value_from_node c vn ≡ assoc vn (top_values file))
    × ((mn vn : Bytes)
        → get_value_from_node (get_submod_from_node c mn) vn
          ≡ value_in (assoc mn (top_blocks file)) vn)
read_values_example = read_values 20 file file-GoodFile (omega arith)

read_arrays_example :
    (c : Conf) × (parse false 20 (render_file file) ≡ ok (some c))
    × ((mn : Bytes) → ReadsArray (get_array_from_node c mn) (assoc mn (top_arrays file)))
read_arrays_example = read_arrays 20 file file-GoodFile (omega arith)

-- The node of the process stands behind the others.
reads_run :
    (get_proc_mod (file_conf file)
      ≡ conf_node db [] proc_mod_t (conf_node ip db char_t null blank) blank)
    × (get_value_from_array_by_index (get_array_from_node (file_conf file) db) 0 ≡ some (some ip))
    × (get_value_from_array_by_index (get_array_from_node (file_conf file) db) 1 ≡ some none)
unfolding get_proc_mod get_array_from_node get_value_from_array_by_index
reads_run = (refl, refl, refl)

-- A file in two short reads of the first block, and five bytes more.
short_reads : readfile (700 ∷ 324 ∷ 5 ∷ []) ≡ some 1029
unfolding readfile read_loop
short_reads = refl

full_blocks-Answers : (k : ℕ) → Answers 1024 (replicate k 1024)
full_blocks-Answers zero = tt
full_blocks-Answers (suc k) = (omega arith, omega arith, full_blocks-Answers k)

sum-full_blocks : (k : ℕ) → sum (replicate k 1024) ≡ 1024 * k
sum-full_blocks zero = refl
sum-full_blocks (suc k) = omega (arith, sum-full_blocks k)

-- 257 full blocks.
readfile_overruns_example : readfile (replicate 257 1024) ≡ none
readfile_overruns_example =
    readfile_overruns (replicate 257 1024) (full_blocks-Answers 257)
      (omega (arith, sum-full_blocks 257))
