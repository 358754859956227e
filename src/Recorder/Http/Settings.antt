-- ===== src/Recorder/Http/Settings.antt =====
-- The settings of the server of src/app/record_control.cpp, as src/conf/pconf.cpp reads them.
use record_lib.Base.{ℕ, ◌≤◌, ◌≡◌, refl, true, false, Option, none, some, ◌>>=◌}
use record_lib.Conf.{Conf, ok}
use record_lib.Conf.Parser.{parse}
use record_lib.Conf.Text.{File, render_file, GoodFile, file_weight}
use record_lib.Conf.RoundTrip.{parse-render_file}
use record_lib.Conf.Found.{assoc, top_values, read_values}
use record_lib.Recorder.{AppData, codes}
use record_lib.Recorder.Http.{init}

-- The first values of the three names at the top of a configuration.
abbrev pub settings_of : File → Option AppData
settings_of f = do
  port ← assoc (codes "port") (top_values f)
  root ← assoc (codes "root") (top_values f)
  host ← assoc (codes "host") (top_values f)
  some (record { host = host; port = port; root_path = root })

-- For a configuration (GoodFile) that is written out with a newline at its end, given as much fuel
-- as it has rounds: if the uninitialised pointer `name` of the parser is NULL after the newline,
-- parse refuses the file; if it is not, parse gives a tree on which init of the HTTP service takes
-- the first values of port, root and host at the top of the configuration as its settings, and
-- ends the process if one of them is missing.
pub init-settings_of :
    (fuel : ℕ) (f : File)
    → GoodFile f
    → file_weight f ≤ fuel
    → (parse true fuel (render_file f) ≡ ok none)
      × ((c : Conf) × (parse false fuel (render_file f) ≡ ok (some c)) × (init c ≡ settings_of f))
unfolding init
init-settings_of fuel f good enough =
    let (c, parsed, values, inner) = read_values fuel f good enough in
    (
      parse-render_file true fuel f good enough,
      (c, parsed, rw (values (codes "port"), values (codes "root"), values (codes "host")) refl),
    )
