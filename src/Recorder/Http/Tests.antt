-- ===== src/Recorder/Http/Tests.antt =====
-- The settings of a small configuration, and the paths of the requests.
use record_lib.Base.{◌≡◌, refl, true, false, none, some, arith}
use record_lib.Conf.{Conf, ok}
use record_lib.Conf.Parser.{parse}
use record_lib.Conf.Chars.{valid_name, valid_value}
use record_lib.Conf.Text.{File, nil, value, render_file, GoodFile}
use record_lib.Recorder.{codes}
use record_lib.Recorder.Http.{init, route, stop_handler, directory}
use record_lib.Recorder.Http.Settings.{init-settings_of}

-- `port 80;root a;host h;`
abbrev file : File
file =
    value (codes "port") (codes "80")
      (value (codes "root") (codes "a") (value (codes "host") (codes "h") nil))

file-GoodFile : GoodFile file
unfolding valid_name valid_value
file-GoodFile = ground arith

init-settings_of_example :
    (parse true 9 (render_file file) ≡ ok none)
    × ((c : Conf) × (parse false 9 (render_file file) ≡ ok (some c))
        × (init c ≡ some (record { host = codes "h"; port = codes "80"; root_path = codes "a" })))
init-settings_of_example = init-settings_of 9 file file-GoodFile (omega arith)

route_test : route (codes "/api/r3/stop") ≡ some stop_handler
unfolding route
route_test = refl

directory_test : directory (codes "a/b/c.m3u8") ≡ codes "a/b"
unfolding directory
directory_test = refl
