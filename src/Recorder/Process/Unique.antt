-- ===== src/Recorder/Process/Unique.antt =====
-- The documents of the service of src/app/process_manager.cpp: one for each stream, each as
-- `add_process_to_cache` writes it.
use record_lib.Base.{◌≡◌}
use record_lib.Recorder.{Platform, State}
use record_lib.Recorder.Adaptor.{handle}
use record_lib.Recorder.Store.{open_collection}
use record_lib.Recorder.Store.Records.{
  Unique, count-absent, add-Unique, remove-Unique, update-Unique,
}
use record_lib.Recorder.Documents.{IsLawful}
use record_lib.Recorder.Process.Service.{Reach}
use record_lib.Recorder.Process.Kept.{Writes, reach-keeps}

module _ (p : Platform) (l : IsLawful p) (opened : open_collection p ≡ handle) where
  Unique-writes : Writes p (λ db. Unique (l.docs db))
  Unique-writes = record {
    added = λ info server db new u.
        add-Unique p l info server db (λ o. count-absent p l info.sid db opened new) u;
    updated = λ info db u. update-Unique p l info db u;
    removed = λ sid db u. remove-Unique p l sid db u;
  }

  -- Over a database that does what the driver documents and can be opened: whatever start and stop
  -- requests, rounds of the queue and of the monitor, deaths of children and outside changes have
  -- happened, in any order, if every stream had one document at most before, every stream has one
  -- document at most after.
  pub reach-Unique : {s s' : State p} → Reach p s s' → Unique (l.docs s.db) → Unique (l.docs s'.db)
  reach-Unique r u = reach-keeps p (λ db. Unique (l.docs db)) Unique-writes r u
