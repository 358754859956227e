-- ===== src/Recorder/Tests.antt =====
-- Runs of the recording service on a database and files in memory.
use record_lib.Base.{
  ◌≤◌, ◌<◌, ◌≡◌, ◌⊎◌, refl, Bool, true, false, ◌||◌, Option, some, [], ◌∷◌, arith, length, Returns,
}
use record_lib.Conf.Parser.{bytes_eq}
use record_lib.Recorder.{codes, c_str, ProcessInfo, AppData, error_ok, utf8, Bson, State}
use record_lib.Recorder.Files.{decimal, multi_mkdir, create_m3u8}
use record_lib.Recorder.Files.Directories.{Exists, AllExist, MakesDirectories, multi_mkdir-Exists}
use record_lib.Recorder.Adaptor
use record_lib.Recorder.Adaptor.{handle, find_one, connect, collection}
use record_lib.Recorder.Store.{
  open_collection, add_process_to_cache, by_pid, info_bson, parser, is_process_exist, is_pid_exist,
  get_process_info,
}
use record_lib.Recorder.Store.Records.{Unique, bytes_eq_refl}
use record_lib.Recorder.Store.Reads.{AllRecorded, recorded, stored}
use record_lib.Recorder.Documents.{count, matching}
use record_lib.Recorder.Documents.Memory.{memory, memory-IsLawful}
use record_lib.Recorder.Process.{
  returned, kill_process, send_message, spawn_process, process_queue, queue_round, put_data,
}
use record_lib.Recorder.Process.Service.{start, next, spawns}
use record_lib.Recorder.Process.Unique.{reach-Unique}
use record_lib.Recorder.Process.Stops.{kill_process-stays_dead}
use record_lib.Recorder.Process.Restarts.{spawn_process-recorded, send_message-restarts}
use record_lib.Recorder.Process.Drains.{Drained, AllShort, process_queue-Drained}
use record_lib.Recorder.Http.{start_record, stop_record, Reply, success}
use record_lib.Recorder.Http.Replies.{start_record-reply, stop_record-reply}

abbrev camera : ProcessInfo
camera = record {
  sid = codes "s1";
  pid = 0;
  ppid = 0;
  src_url = codes "rtmp://a/1";
  m3u8_path = codes "/v";
  type = codes "rtmp";
  status = codes "active";
  host = codes "h";
}

-- An object whose numbers are not set.
abbrev blank : ProcessInfo
blank = record {
  sid = [];
  pid = 77;
  ppid = 78;
  src_url = [];
  m3u8_path = [];
  type = [];
  status = [];
  host = [];
}

abbrev waiting : State memory
waiting = record {
  db = [];
  sys = record { names = []; live = []; next_pid = 100 };
  queue = camera ∷ [];
}

abbrev playing : ProcessInfo
playing = record camera { pid = 100; m3u8_path = codes "/vs1_1700000000.m3u8" }

abbrev running : State memory
running = record {
  db = info_bson playing 1 ∷ [];
  sys = record {
    names = codes "/vs1_1700000000.m3u8" ∷ codes "/v" ∷ [] ∷ [];
    live = 100 ∷ [];
    next_pid = 101;
  };
  queue = [];
}

decimal_test : decimal 1700000000 ≡ codes "1700000000"
unfolding decimal
decimal_test = refl

-- The stream is recorded under the number 100, with its playlist.
queue_test : process_queue memory 1 waiting ≡ some (returned error_ok running)
unfolding process_queue queue_round spawn_process create_m3u8 multi_mkdir is_process_exist find_one
    matching decimal c_str Adaptor.insert add_process_to_cache collection connect
queue_test = refl

add_running : queue_round memory waiting ≡ some (returned error_ok running)
unfolding queue_round spawn_process create_m3u8 multi_mkdir is_process_exist find_one matching
    decimal c_str Adaptor.insert add_process_to_cache collection connect
add_running = refl

none-Unique : Unique []
unfolding count
none-Unique sid = omega arith

opened : open_collection memory ≡ handle
unfolding open_collection collection connect
opened = refl

reach-Unique_example : Unique running.db
reach-Unique_example =
    reach-Unique memory memory-IsLawful opened (next start (spawns add_running)) none-Unique

running-AllRecorded : AllRecorded running.db
running-AllRecorded = (recorded playing 1 refl, tt)

running-Unique : Unique running.db
running-Unique =
    reach-Unique memory memory-IsLawful opened (next start (spawns add_running)) none-Unique

read_running : get_process_info memory blank (codes "s1") running.db ≡ some (stored playing 1)
unfolding get_process_info find_one matching open_collection collection connect parser c_str
read_running = refl

one_pid : count (by_pid 100) running.db ≤ 1
unfolding count
one_pid = omega arith

-- The stop removes the document before the signal.
kill_process-stays_dead_example :
    send_message memory blank 100 (kill_process memory blank (codes "s1") running).1
    ≡ returned error_ok (kill_process memory blank (codes "s1") running).1
kill_process-stays_dead_example =
    kill_process-stays_dead memory memory-IsLawful opened (λ q db. refl) blank blank (codes "s1")
      running running-AllRecorded running-Unique read_running one_pid

found_running : is_pid_exist memory 100 blank running.db ≡ (true, stored playing 1)
unfolding is_pid_exist find_one matching open_collection collection connect parser c_str
found_running = refl

send_message-restarts_example :
    (s' : State memory) × (send_message memory blank 100 running ≡ returned error_ok s')
    × (get_process_info memory blank (codes "s1") s'.db
        ≡ some (record (stored playing 1) { pid = 101 }))
    × (s'.queue ≡ [])
unfolding c_str
send_message-restarts_example =
    send_message-restarts memory memory-IsLawful opened blank blank 100 101 running
      running-AllRecorded running-Unique (λ q change db. refl) found_running refl

new_camera : is_process_exist memory (codes "s1") [] ≡ false
unfolding is_process_exist find_one matching open_collection collection connect
new_camera = refl

spawn_process-recorded_example :
    (s' : State memory) × (spawn_process memory camera waiting ≡ some (returned error_ok s'))
    × (get_process_info memory blank (codes "s1") s'.db ≡ some (stored playing 1))
    × (s'.queue ≡ camera ∷ [])
unfolding create_m3u8 multi_mkdir decimal c_str
spawn_process-recorded_example =
    spawn_process-recorded memory memory-IsLawful opened camera blank waiting new_camera refl refl
      (λ d db. refl)

waiting-AllShort : AllShort waiting.queue
unfolding c_str
waiting-AllShort = omega arith

process_queue-Drained_example : Returns (Drained memory) (process_queue memory 1 waiting)
process_queue-Drained_example = process_queue-Drained memory waiting waiting-AllShort

or_true : (b : Bool) → (b || true) ≡ true
or_true true = refl
or_true false = refl

makes : MakesDirectories memory
makes = record {
  makes = λ dir sys h all. rw (bytes_eq_refl dir) refl;
  keeps = λ dir other sys h. rw h (or_true (bytes_eq other dir));
}

multi_mkdir-Exists_example :
    Returns
      (λ sys'. Exists memory (codes "/v/w") sys' × AllExist memory ([] ∷ codes "/v" ∷ []) sys')
      (multi_mkdir memory (codes "/v/w") waiting.sys)
unfolding c_str
multi_mkdir-Exists_example =
    multi_mkdir-Exists memory makes (codes "/v/w") waiting.sys (omega arith)

abbrev settings : AppData
settings = record { host = codes "h"; port = codes "80"; root_path = codes "/" }

abbrev request : Option Bson
request = some (
    ("src", utf8 (codes "rtmp://a/1"))
    ∷ ("path", utf8 (codes "v"))
    ∷ ("streamcode", utf8 (codes "s1"))
    ∷ ("type", utf8 (codes "rtmp"))
    ∷ [])

abbrev idle : State memory
idle = record waiting { queue = [] }

started : start_record memory settings (some request) idle ≡ some (success, waiting)
unfolding start_record put_data c_str
started = refl

start_record-reply_example :
    ((success.status ≡ 400) × (waiting ≡ idle))
    ⊎ ((success.status ≡ 200)
        × ((info : ProcessInfo) × (waiting ≡ record idle { queue = info ∷ [] })
            × (length (c_str info.m3u8_path) < 256)))
start_record-reply_example = start_record-reply memory settings (some request) idle started

stop_record-reply_example :
    (r : Reply) × (s' : State memory) × (stop_record memory blank (some request) running
      ≡ some (r, s'))
    × (r.status ≡ 200)
    × (is_process_exist memory (codes "s1") s'.db ≡ false)
unfolding is_process_exist find_one matching open_collection collection connect c_str
stop_record-reply_example =
    stop_record-reply memory memory-IsLawful opened (λ q db. refl) blank request running
      running-AllRecorded running-Unique refl refl refl
