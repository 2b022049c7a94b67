-- ===== src/Examples/Daemons.antt =====
-- The directory of daemons at concrete files: one daemon runs and another has ended.
use neutun.Base.{ℕ, eqb, Text-discrete, ◌≡◌, refl, Bool, some, codes, [], ◌∷◌, arith}
use neutun.Str.Numbers.{show, show_onto}
use neutun.Str.{ends_with}
use neutun.Utf8.{from_utf8}
use neutun.Client.Saved.{
  DaemonEntry, Files, ReadsBack, read_all, list_daemon_entries, cleanup_and_list_daemons,
}
use neutun.Client.Daemon.{stop, ls, stop_all_daemons}
use neutun.Client.Daemon.Directory.{IsEntry, IsDirectory}
use neutun.Client.Daemon.Listing.{live_entries, cleanup_and_list_daemons-live_entries}
use neutun.Client.Daemon.Stopping.{stop_all_daemons-live_entries}
use neutun.Client.Daemon.Commands.{Runs, start, manage, run_all, run_all-IsDirectory}
use neutun.Examples.Saved.{daemon, saved_json}
use neutun.Examples.Settings.{no_files, daemon_law}

abbrev ended_daemon : DaemonEntry
ended_daemon = record daemon { pid = 66 }

ended_law : ReadsBack saved_json.daemon_from_str saved_json.daemon_to_string ended_daemon
unfolding from_utf8
ended_law = refl

abbrev alive : ℕ → Bool
alive pid = eqb pid 65

abbrev files : Files
files = record no_files { daemons = (codes "66.json", 66 ∷ []) ∷ (codes "65.json", 65 ∷ []) ∷ [] }

file_65 : IsEntry saved_json (codes "65.json") (65 ∷ [])
unfolding show show_onto
file_65 = record {
  entry = daemon;
  named = refl;
  written = refl;
  reads_back = daemon_law;
  small = omega arith;
}

file_66 : IsEntry saved_json (codes "66.json") (66 ∷ [])
unfolding show show_onto
file_66 = record {
  entry = ended_daemon;
  named = refl;
  written = refl;
  reads_back = ended_law;
  small = omega arith;
}

files-IsDirectory : IsDirectory saved_json files.daemons
files-IsDirectory = (file_66, (file_65, tt))

cleanup_and_list_daemons-live_entries_example :
    let listed = cleanup_and_list_daemons saved_json alive files in
    (listed.0 ≡ daemon ∷ [])
    × (list_daemon_entries saved_json listed.1 ≡ listed.0)
    × (cleanup_and_list_daemons saved_json alive listed.1 ≡ listed)
unfolding live_entries list_daemon_entries read_all Text-discrete ends_with from_utf8
cleanup_and_list_daemons-live_entries_example =
    cleanup_and_list_daemons-live_entries alive saved_json files files-IsDirectory

stop_all_daemons-live_entries_example :
    let r = stop_all_daemons saved_json alive files in (r.0 ≡ 65 ∷ []) × (r.1.daemons ≡ [])
unfolding live_entries list_daemon_entries read_all Text-discrete ends_with from_utf8
stop_all_daemons-live_entries_example =
    stop_all_daemons-live_entries alive saved_json files files-IsDirectory

-- A daemon is started, the list is shown, and another is stopped.
abbrev runs : Runs
runs =
    (alive, start (some 65) 3000 (some (codes "app")) (codes "now") [])
    ∷ (alive, manage ls)
    ∷ (alive, manage (stop 66))
    ∷ []

run_all-IsDirectory_example : IsDirectory saved_json (run_all saved_json runs files).daemons
run_all-IsDirectory_example =
    run_all-IsDirectory saved_json runs files ((omega arith, daemon_law), (tt, (tt, tt)))
      files-IsDirectory
