-- ===== src/Recorder/Files/Directories.antt =====
-- `multi_mkdir` of src/app/process_manager.cpp makes every directory of a path.
use mathlib.Core.List.{append-nil, append_assoc}
use mathlib.Core.Path.{subst}
use record_lib.Base.{
  ◌<◌, ◌≡◌, ◌≢◌, refl, ◌⊎◌, inl, inr, true, false, List, [], ◌∷◌, ◌++◌, ◌==◌, ltb, if◌then◌else◌,
  arith, Bool-cases, length, Returns, returns,
}
use record_lib.Recorder.{Bytes, c_str, Platform}
use record_lib.Recorder.Files.{ensure, mkdir_loop, whole_dir, multi_mkdir}

-- The parts of `rest`, behind `before`, that end in front of a slash.
abbrev pub prefixes : (before rest : Bytes) → List Bytes
prefixes before [] = []
prefixes before (c ∷ rest) =
    (if c == b'/' then before ∷ [] else []) ++ prefixes (before ++ (c ∷ [])) rest

prefixes-append :
    (before xs ys : Bytes)
    → prefixes before (xs ++ ys) ≡ prefixes before xs ++ prefixes (before ++ xs) ys
prefixes-append before [] ys = rw append-nil refl
prefixes-append before (c ∷ xs) ys =
    rw (prefixes-append (before ++ (c ∷ [])) xs ys, append_assoc, append_assoc) refl

module _ (p : Platform) where
  -- A name that is empty is no directory.
  abbrev pub Exists : Bytes → p.Sys → Type 0
  Exists dir sys = (dir ≡ []) ⊎ (p.access dir sys ≡ true)

  abbrev pub AllExist : List Bytes → p.Sys → Type 0
  AllExist [] sys = Unit
  AllExist (d ∷ ds) sys = Exists d sys × AllExist ds sys

  -- `mkdir` makes a directory whose parents exist, and removes nothing.
  pub record MakesDirectories : Type 0 where
    pub makes :
        (dir : Bytes) (sys : p.Sys)
        → dir ≢ []
        → AllExist (prefixes [] dir) sys
        → p.access dir (p.mkdir dir sys) ≡ true
    pub keeps :
        (dir other : Bytes) (sys : p.Sys)
        → p.access other sys ≡ true
        → p.access other (p.mkdir dir sys) ≡ true

  AllExist-append :
      (xs ys : List Bytes) (sys : p.Sys)
      → AllExist xs sys
      → AllExist ys sys
      → AllExist (xs ++ ys) sys
  AllExist-append [] ys sys h k = k
  AllExist-append (x ∷ xs) ys sys (e, h) k = (e, AllExist-append xs ys sys h k)

  module _ (m : MakesDirectories) where
    ensure-keeps_one : (dir d : Bytes) (sys : p.Sys) → Exists d sys → Exists d (ensure p dir sys)
    unfolding ensure
    ensure-keeps_one dir d sys (inl e) = inl e
    ensure-keeps_one dir d sys (inr e) = elim (Bool-cases (p.access dir sys)) [
      | inl a ↦ rw a (inr e)
      | inr a ↦ rw a (inr (m.keeps dir d sys e))
    ]

    ensure-keeps :
        (dir : Bytes) (ds : List Bytes) (sys : p.Sys)
        → AllExist ds sys
        → AllExist ds (ensure p dir sys)
    ensure-keeps dir [] sys h = tt
    ensure-keeps dir (d ∷ ds) sys (e, h) = (ensure-keeps_one dir d sys e, ensure-keeps dir ds sys h)

    ensure-Exists :
        (dir : Bytes) (sys : p.Sys) → AllExist (prefixes [] dir) sys → Exists dir (ensure p dir sys)
    unfolding ensure
    ensure-Exists [] sys h = inl refl
    ensure-Exists (c ∷ cs) sys h = elim (Bool-cases (p.access (c ∷ cs) sys)) [
      | inl a ↦ rw a (inr a)
      | inr a ↦ rw a (inr (m.makes (c ∷ cs) sys (λ e. cc) h))
    ]

    mkdir_loop-AllExist :
        (before rest : Bytes) (sys : p.Sys)
        → AllExist (prefixes [] before) sys
        → AllExist (prefixes [] (before ++ rest)) (mkdir_loop p before rest sys)
    unfolding mkdir_loop
    mkdir_loop-AllExist before [] sys h = rw append-nil h
    mkdir_loop-AllExist before (c ∷ rest) sys h =
        subst
          (λ t. AllExist (prefixes [] t) (
            mkdir_loop p (before ++ (c ∷ [])) rest
              (if c == b'/' then ensure p before sys else sys)))
          (append_assoc before (c ∷ []) rest)
          (mkdir_loop-AllExist (before ++ (c ∷ [])) rest _
            (rw (prefixes-append [] before (c ∷ [])) (step (Bool-cases (c == b'/')))))
      where
        step :
            ((c == b'/') ≡ true) ⊎ ((c == b'/') ≡ false)
            → AllExist
                (prefixes [] before ++ prefixes before (c ∷ []))
                (if c == b'/' then ensure p before sys else sys)
        step (inl e) = rw e (
            AllExist-append (prefixes [] before) (before ∷ []) (ensure p before sys)
              (ensure-keeps before (prefixes [] before) sys h) (ensure-Exists before sys h, tt))
        step (inr e) = rw e (AllExist-append (prefixes [] before) [] sys h tt)

    whole_dir-Exists :
        (str : Bytes) (sys : p.Sys)
        → AllExist (prefixes [] str) sys
        → Exists str (whole_dir p str sys) × AllExist (prefixes [] str) (whole_dir p str sys)
    unfolding whole_dir
    whole_dir-Exists [] sys h = (inl refl, tt)
    whole_dir-Exists (c ∷ cs) sys h =
        (ensure-Exists (c ∷ cs) sys h, ensure-keeps (c ∷ cs) (prefixes [] (c ∷ cs)) sys h)

    -- If mkdir makes a directory whose parents exist and removes nothing: after multi_mkdir of a
    -- path of less than 512 bytes, which does not fault, the path exists and so does each part of
    -- it that ends in front of a slash, an empty part excepted.
    pub multi_mkdir-Exists :
        (dir : Bytes) (sys : p.Sys)
        → length (c_str dir) < 512
        → Returns
            (λ sys'. Exists (c_str dir) sys' × AllExist (prefixes [] (c_str dir)) sys')
            (multi_mkdir p dir sys)
    unfolding multi_mkdir
    multi_mkdir-Exists dir sys h =
        let fits : ltb (length (c_str dir)) 512 ≡ true = ground arith in
        rw fits (
          returns (
            whole_dir-Exists (c_str dir) (mkdir_loop p [] (c_str dir) sys)
              (mkdir_loop-AllExist [] (c_str dir) sys tt)))
