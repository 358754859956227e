-- ===== src/Recorder/Files.antt =====
-- The playlist files of `ProcessManager`, src/app/process_manager.cpp, and the texts that `snprintf`
-- makes. `none` is a path that does not fit the array of `multi_mkdir`.
pub mod Directories
use record_lib.Base.{
  ℕ, zero, suc, ◌+◌, ◌-◌, ◌/◌, ◌%◌, Bool, true, false, Option, none, some, List, [], ◌∷◌, ◌++◌,
  ◌==◌, ltb, if◌then◌else◌, ◌>>=◌, length, take, u32_mod,
}
use record_lib.Recorder.{
  Bytes, codes, c_str, M3u8Param, ErrorCode, error_ok, create_m3u8_file, Platform,
}

-- `snprintf` into an array of `size` bytes leaves a string of at most `size - 1`.
abbrev pub snprintf : (size : ℕ) → Bytes → Bytes
snprintf size text = take (size - 1) text

digits : (fuel n : ℕ) → Bytes → Bytes
digits zero n acc = acc
digits (suc fuel) n acc =
    let rest = digits fuel (n / 10) ((b'0' + n % 10) ∷ acc) in
    if ltb n 10 then (b'0' + n) ∷ acc else rest

-- What `%d` prints of a number that is not negative; 20 digits hold 64 bits.
unfoldable pub decimal : ℕ → Bytes
unfolding digits
decimal n = digits 20 n []

-- What `%d` prints of a wider number: its low 32 bits, with their sign.
abbrev pub decimal_int : ℕ → Bytes
decimal_int n =
    let low = n % u32_mod in
    if ltb low 2147483648 then decimal low else b'-' ∷ decimal (u32_mod - low)

-- The name of a playlist.
abbrev pub m3u8_name : (path sid : Bytes) → (time : ℕ) → Bytes
m3u8_name path sid time =
    snprintf 256 (c_str path ++ (c_str sid ++ (b'_' ∷ (decimal_int time ++ codes ".m3u8"))))

module _ (p : Platform) where
  open p use {Sys, opendir, access, mkdir, open_create, chmod}

  pub ensure : Bytes → Sys → Sys
  ensure dir sys = if access dir sys then sys else mkdir dir sys

  -- The `for` over the string: `done` stands before the index, `rest` from it on.
  pub mkdir_loop : (done rest : Bytes) → Sys → Sys
  unfolding ensure
  mkdir_loop done [] sys = sys
  mkdir_loop done (c ∷ rest) sys =
      mkdir_loop (done ++ (c ∷ [])) rest (if c == b'/' then ensure done sys else sys)

  whole_dir : Bytes → Sys → Sys
  unfolding ensure
  whole_dir [] sys = sys
  whole_dir (c ∷ cs) sys = ensure (c ∷ cs) sys

  unfoldable pub multi_mkdir : Bytes → Sys → Option Sys
  unfolding mkdir_loop whole_dir
  multi_mkdir dir sys =
      let str = c_str dir in
      if ltb (length str) 512 then some (whole_dir str (mkdir_loop [] str sys)) else none

  create_file : M3u8Param → Sys → (ErrorCode × M3u8Param) × Sys
  create_file param sys =
      let tmp = m3u8_name param.path param.sid (p.time sys) in
      let (opened, sys') = open_create tmp sys in
      if opened
      then ((error_ok, record param { file_path = tmp }), chmod tmp sys')
      else ((create_m3u8_file, param), sys')

  unfoldable pub create_m3u8 : M3u8Param → Sys → Option ((ErrorCode × M3u8Param) × Sys)
  unfolding multi_mkdir create_file
  create_m3u8 param sys =
      if opendir (c_str param.path) sys
      then some (create_file param sys)
      else do sys' ← multi_mkdir param.path sys; some (create_file param sys')
