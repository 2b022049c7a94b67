-- ===== src/Client/Daemon/Commands.antt =====
-- Runs of the program that start, list and stop daemons.
use neutun.Base.{ℕ, Text, refl, Bool, Option, none, some, List, [], ◌∷◌, All}
use neutun.Table
use neutun.Str.Numbers.{show}
use neutun.Client.Saved.{
  DaemonEntry, Files, SavedJson, ReadsBack, json_file, save_daemon_entry, check_daemon_collision,
  cleanup_and_list_daemons,
}
use neutun.Client.Daemon.{
  DaemonAction, ls, stop, stop_all, spawned, unless_running, start_daemon, handle_daemon_action,
  stop_daemon, stop_all_daemons, list_daemons,
}
use neutun.Client.Daemon.Directory.{IsPid, IsEntry, IsDirectory}
use neutun.Client.Daemon.Listing.{
  remove_daemon_entry-IsDirectory, cleanup_and_list_daemons-IsDirectory,
}
use neutun.Client.Daemon.Stopping.{remove_entries-IsDirectory}

-- A start has the id of the child, if it is spawned, the port, the sub-domain, the time and the
-- arguments.
pub data Command : Type 0 where
  start : Option ℕ → ℕ → Option Text → Text → List Text → Command
  manage : DaemonAction → Command

-- Each run with the processes that are alive at its time.
abbrev pub Runs : Type 0
Runs = List ((ℕ → Bool) × Command)

abbrev pub started_entry : ℕ → ℕ → Option Text → Text → DaemonEntry
started_entry pid port subdomain now = record {
  pid = pid;
  port = port;
  subdomain = subdomain;
  started_at = now;
}

module _ (j : SavedJson) where
  unfoldable pub run : (ℕ → Bool) → Command → Files → Files
  run alive (start pid port subdomain now args) f =
      (start_daemon j alive pid port subdomain now args f).1
  run alive (manage action) f = (handle_daemon_action j alive action f).1

  unfoldable pub run_all : Runs → Files → Files
  run_all [] f = f
  run_all ((alive, command) ∷ rest) f = run_all rest (run alive command f)

  -- The child's id has 32 bits, and serde reads its entry back.
  abbrev pub IsFine : Command → Type 0
  IsFine (start none port subdomain now args) = Unit
  IsFine (start (some pid) port subdomain now args) =
      IsPid pid
      × ReadsBack j.daemon_from_str j.daemon_to_string (started_entry pid port subdomain now)
  IsFine (manage action) = Unit

  spawned-IsDirectory :
      (pid : Option ℕ) (port : ℕ) (subdomain : Option Text) (now : Text) (args : List Text)
      (f : Files)
      → IsFine (start pid port subdomain now args)
      → IsDirectory j f.daemons
      → IsDirectory j (spawned j pid port subdomain now args f).1.daemons
  unfolding spawned save_daemon_entry
  spawned-IsDirectory none port subdomain now args f fine h = h
  spawned-IsDirectory (some pid) port subdomain now args f (small, law) h =
      let entry = started_entry pid port subdomain now in
      let file : IsEntry j (json_file (show pid)) (j.daemon_to_string entry) = record {
        entry = entry;
        named = refl;
        written = refl;
        reads_back = law;
        small = small;
      } in
      Table.insert-All _ (json_file (show pid)) (j.daemon_to_string entry) f.daemons file h

  unless_running-IsDirectory :
      (o : Option DaemonEntry) (pid : Option ℕ) (port : ℕ) (subdomain : Option Text) (now : Text)
      (args : List Text) (f : Files)
      → IsFine (start pid port subdomain now args)
      → IsDirectory j f.daemons
      → IsDirectory j (unless_running j o pid port subdomain now args f).1.daemons
  unfolding unless_running
  unless_running-IsDirectory none pid port subdomain now args f fine h =
      spawned-IsDirectory pid port subdomain now args f fine h
  unless_running-IsDirectory (some _) pid port subdomain now args f fine h = h

  run-IsDirectory :
      (alive : ℕ → Bool) (command : Command) (f : Files)
      → IsFine command
      → IsDirectory j f.daemons
      → IsDirectory j (run alive command f).daemons
  unfolding run start_daemon check_daemon_collision handle_daemon_action stop_daemon
      stop_all_daemons list_daemons
  run-IsDirectory alive (start pid port subdomain now args) f fine h =
      let listed = cleanup_and_list_daemons-IsDirectory alive j f h in
      unless_running-IsDirectory _ pid port subdomain now args _ fine listed
  run-IsDirectory alive (manage ls) f fine h = cleanup_and_list_daemons-IsDirectory alive j f h
  run-IsDirectory alive (manage (stop pid)) f fine h =
      remove_daemon_entry-IsDirectory alive j pid f h
  run-IsDirectory alive (manage stop_all) f fine h =
      let listed = cleanup_and_list_daemons j alive f in
      remove_entries-IsDirectory alive j listed.0 listed.1
        (cleanup_and_list_daemons-IsDirectory alive j f h)

  -- Whatever daemons are started, listed and stopped, whatever processes run meanwhile, each file in
  -- the directory of daemons is named for a process and holds an entry of it that is read back, if
  -- that holds at first, process ids have 32 bits and the entries that are written are read back.
  pub run_all-IsDirectory :
      (runs : Runs) (f : Files)
      → All (λ r. IsFine r.1) runs
      → IsDirectory j f.daemons
      → IsDirectory j (run_all runs f).daemons
  unfolding run_all
  run_all-IsDirectory [] f fine h = h
  run_all-IsDirectory ((alive, command) ∷ rest) f (first, fine) h =
      run_all-IsDirectory rest (run alive command f) fine (run-IsDirectory alive command f first h)
