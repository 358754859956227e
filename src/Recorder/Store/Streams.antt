-- ===== src/Recorder/Store/Streams.antt =====
-- Which streams the service finds, and what it reads of them, src/app/process_manager.cpp.
use mathlib.Core.Path.{subst}
use record_lib.Base.{
  ℕ, ◌≡◌, refl, ap, sym, ◌∙◌, inl, inr, true, false, some, none, List, [], ◌∷◌, ◌==◌, arith,
  Bool-cases,
}
use record_lib.Recorder.{Bytes, c_str, ProcessInfo, Bson, Platform}
use record_lib.Recorder.Adaptor.{handle}
use record_lib.Recorder.Store.{
  by_stream, by_pid, is_pid_exist, info_bson, open_collection, is_ok, is_process_exist,
  get_process_info,
}
use record_lib.Recorder.Store.Records.{bytes_eq→≡, info-stream, nobody, somebody, Search-one}
use record_lib.Recorder.Store.Reads.{
  recorded, AllRecorded, matching-AllRecorded, stored, parser-info_bson,
}
use record_lib.Recorder.Documents.{count, matching, IsLawful}

pub c_str-c_str : (s : Bytes) → c_str (c_str s) ≡ c_str s
unfolding c_str
c_str-c_str [] = refl
c_str-c_str (c ∷ cs) = elim (Bool-cases (c == 0)) [
  | inl e ↦ rw e refl
  | inr e ↦ rw (e, e) (ap (λ t. c ∷ t) (c_str-c_str cs))
]

module _ (p : Platform) (l : IsLawful p) where
  -- What a search for a stream finds among the documents that the service wrote.
  pub data Stream (sid : Bytes) (db : p.Db) : Type 0 where
    unknown :
        count (by_stream sid) (l.docs db) ≡ 0
        → is_process_exist p sid db ≡ false
        → ((fresh : ProcessInfo) → get_process_info p fresh sid db ≡ none)
        → Stream sid db
    known :
        (info : ProcessInfo) (server : ℕ) (more : List Bson)
        → c_str sid ≡ c_str info.sid
        → matching (by_stream sid) (l.docs db) ≡ info_bson info server ∷ more
        → is_process_exist p sid db ≡ true
        → ((fresh : ProcessInfo) → get_process_info p fresh sid db ≡ some (stored info server))
        → Stream sid db

  pub Stream-of :
      (sid : Bytes) (db : p.Db)
      → open_collection p ≡ handle
      → AllRecorded (l.docs db)
      → Stream sid db
  unfolding is_process_exist get_process_info is_ok
  Stream-of sid db opened all = elim (Search-one p l (by_stream sid) db p.empty_text) [
    | nobody n e ↦ unknown n (rw (opened, e) refl) (λ fresh. rw (opened, e) refl)
    | somebody d more m f n e ↦
        elim (subst AllRecorded f (matching-AllRecorded (by_stream sid) (l.docs db) all)).0 [
          | recorded info server r ↦
              known info server more
                (bytes_eq→≡ _ _ (sym (info-stream sid info server) ∙ rw r at m))
                (f ∙ ap (λ (x : Bson). x ∷ more) r) (rw (opened, e) refl)
                (λ fresh. rw (opened, e, r, parser-info_bson p l info fresh server) refl)
        ]
  ]

  -- A query that matches nothing finds nobody.
  pub is_process_exist_of_absent :
      (sid : Bytes) (db : p.Db)
      → open_collection p ≡ handle
      → count (by_stream sid) (l.docs db) ≡ 0
      → is_process_exist p sid db ≡ false
  unfolding is_process_exist is_ok
  is_process_exist_of_absent sid db opened n =
      elim (Search-one p l (by_stream sid) db p.empty_text) [
        | nobody m e ↦ rw (opened, e) refl
        | somebody d more m f pos e ↦ absurd (omega arith)
      ]

  pub is_pid_exist_of_absent :
      (pid : ℕ) (fresh : ProcessInfo) (db : p.Db)
      → open_collection p ≡ handle
      → count (by_pid pid) (l.docs db) ≡ 0
      → is_pid_exist p pid fresh db ≡ (false, fresh)
  unfolding is_pid_exist is_ok
  is_pid_exist_of_absent pid fresh db opened n =
      elim (Search-one p l (by_pid pid) db p.empty_text) [
        | nobody m e ↦ rw (opened, e) refl
        | somebody d more m f pos e ↦ absurd (omega arith)
      ]
