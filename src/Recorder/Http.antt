-- ===== src/Recorder/Http.antt =====
-- The handlers of `CRecordCtl`, src/app/record_control.cpp. A body is a text or
-- NULL. `none` is a fault: a member of the JSON text that is no text, where the exception leaves the
-- handler, or a path that does not fit its array.
pub mod Replies
pub mod Settings
mod Tests
use record_lib.Base.{
  ℕ, Bool, true, false, Option, none, some, List, [], ◌∷◌, ◌++◌, ◌==◌, if◌then◌else◌, ◌>>=◌,
}
use record_lib.Conf.{Conf}
use record_lib.Conf.Lookup.{get_value_from_node}
use record_lib.Conf.Parser.{bytes_eq}
use record_lib.Recorder.{
  Bytes, codes, c_str, ProcessInfo, M3u8Param, AppData, ErrorCode, error_ok, stream_exist,
  stream_not_exist, create_m3u8_file, error_value, Platform, State,
}
use record_lib.Recorder.Files.{snprintf, decimal, create_m3u8}
use record_lib.Recorder.Process.{put_data, kill_process}

-- `evhttp_send_reply`.
pub record Reply : Type 0 where
  pub status : ℕ
  pub reason : Bytes
  pub body : Bytes

-- The body of most replies.
pub error_body : (error_code : ℕ) → (error_text : Bytes) → Bytes
error_body n text =
    codes "{\"error_code\":"
    ++ (snprintf 256 (decimal n) ++ (codes ",\"error_text\":\"" ++ (text ++ codes "\"}")))

-- The replies under the labels that the handlers share.
unfoldable pub http_body_null : Reply
unfolding error_body
http_body_null = record {
  status = 400;
  reason = codes "http body null";
  body = error_body 400 (codes "http post body null");
}

-- The printed code is that of `ret`, which no call has set.
unfoldable pub input_no_match : Reply
unfolding error_body
input_no_match = record {
  status = 400;
  reason = codes "paramter not match";
  body = error_body 0 (codes "input not match");
}

unfoldable pub success : Reply
unfolding error_body
success = record { status = 200; reason = codes "OK"; body = error_body 0 (codes "SUCCESS") }

start_reply : ErrorCode → Reply
unfolding error_body success
start_reply stream_exist = record {
  status = 403;
  reason = codes "stream exist";
  body = error_body (error_value stream_exist) (codes "stream exist");
}
start_reply _ = success

stop_reply : ErrorCode → Reply
unfolding error_body success
stop_reply stream_not_exist = record {
  status = 404;
  reason = codes "stream not exist";
  body = error_body (error_value stream_not_exist) (codes "stream not exist");
}
stop_reply _ = success

create_reply : ErrorCode × M3u8Param → Reply
create_reply (create_m3u8_file, param) = record {
  status = 400;
  reason = codes "paramter not match";
  body =
      codes "{\"ret\":"
      ++ (snprintf 256 (decimal (error_value create_m3u8_file))
          ++ codes ",\"msg\":\"create task failed\"}");
}
create_reply (ret, param) = record {
  status = 200;
  reason = codes "OK";
  body =
      codes "{\"ret\":0,\"msg\":\"create task start\",\"path\":\""
      ++ (c_str param.file_path ++ codes "\"}");
}

-- `rfind("/")`: the bytes before the last slash, if there is one.
unfoldable pub before_slash : Bytes → Option Bytes
before_slash [] = none
before_slash (c ∷ cs) = elim (before_slash cs) [
  | some t ↦ some (c ∷ t)
  | none ↦ if c == b'/' then some [] else none
]

-- `path.substr(0, pos)`
unfoldable pub directory : Bytes → Bytes
unfolding before_slash
directory path = elim (before_slash path) [ some dir ↦ dir | none ↦ path ]

-- The handlers, by the path that `exec` sets them for.
pub data Handler : Type 0 where
  start_handler : Handler
  stop_handler : Handler
  create_handler : Handler
  remove_handler : Handler

pub route : Bytes → Option Handler
route path =
    if bytes_eq path (codes "/api/r3/start")
    then some start_handler
    else if bytes_eq path (codes "/api/r3/stop")
    then some stop_handler
    else if bytes_eq path (codes "/api/r3/create")
    then some create_handler
    else if bytes_eq path (codes "/api/r3/delete")
    then some remove_handler
    else none

-- `init` reads the settings of the tree, or ends the process.
unfoldable pub init : Conf → Option AppData
init mod_tree = do
  port ← get_value_from_node mod_tree (codes "port")
  root ← get_value_from_node mod_tree (codes "root")
  host ← get_value_from_node mod_tree (codes "host")
  some (record { host = host; port = port; root_path = root })

module _ (p : Platform) where
  open p use {Text, Root, parse, as_string}

  -- The members of a `start` request, with the settings of the server.
  start_param : Root → AppData → Option ProcessInfo
  start_param root app = do
    src ← as_string root "src"
    path ← as_string root "path"
    sid ← as_string root "streamcode"
    type ← as_string root "type"
    some (record {
      sid = sid;
      pid = 0;
      ppid = 0;
      src_url = src;
      m3u8_path = snprintf 256 (c_str app.root_path ++ c_str path);
      type = type;
      status = codes "active";
      host = c_str app.host;
    })

  -- The handler behind the reading of the body.
  start_parsed : AppData → Option Root → State p → Option (Reply × State p)
  unfolding start_param start_reply
  start_parsed app none s = some (input_no_match, s)
  start_parsed app (some root) s = do
    param ← start_param root app
    let (ret, s') = put_data p param s
    some (start_reply ret, s')

  unfoldable pub start_record : AppData → Option Text → State p → Option (Reply × State p)
  unfolding start_parsed
  start_record app none s = some (http_body_null, s)
  start_record app (some body) s = start_parsed app (parse body) s

  -- `fresh` is the memory of the object that `kill_process` makes.
  stop_parsed : (fresh : ProcessInfo) → Option Root → State p → Option (Reply × State p)
  unfolding stop_reply
  stop_parsed fresh none s = some (input_no_match, s)
  stop_parsed fresh (some root) s = do
    src ← as_string root "src"
    sid ← as_string root "streamcode"
    let (ret, s') = kill_process p fresh sid s
    some (stop_reply ret, s')

  unfoldable pub stop_record :
      (fresh : ProcessInfo) → Option Text → State p → Option (Reply × State p)
  unfolding stop_parsed
  stop_record fresh none s = some (http_body_null, s)
  stop_record fresh (some body) s = stop_parsed fresh (parse body) s

  create_param : Root → AppData → Option M3u8Param
  create_param root app = do
    path ← as_string root "path"
    sid ← as_string root "streamcode"
    some (record {
      path = snprintf 256 (c_str app.root_path ++ (c_str (directory path) ++ codes "/"));
      sid = sid;
      file_path = [];
    })

  -- The handler behind the reading of the body.
  create_parsed : AppData → Option Root → State p → Option (Reply × State p)
  unfolding create_param create_reply
  create_parsed app none s = some (input_no_match, s)
  create_parsed app (some root) s = do
    param ← create_param root app
    (result, sys') ← create_m3u8 p param s.sys
    some (create_reply result, record s { sys = sys' })

  unfoldable pub create_record : AppData → Option Text → State p → Option (Reply × State p)
  unfolding create_parsed
  create_record app none s = some (http_body_null, s)
  create_record app (some body) s = create_parsed app (parse body) s

  -- The body is empty: a `delete` request gets no reply.
  pub remove_record : Option Text → State p → Option Reply × State p
  remove_record body s = (none, s)
