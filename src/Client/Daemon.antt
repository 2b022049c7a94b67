-- ===== src/Client/Daemon.antt =====
-- neutun/src/daemon.rs.
pub mod Twice
pub mod Directory
pub mod Listing
pub mod Stopping
pub mod Commands
pub mod Spawn
use neutun.Base.{
  ℕ, Text, ◌==◌, if◌then◌else◌, Bool, true, false, ◌&&◌, not, Option, none, some, String, codes,
  List, [], ◌∷◌,
}
use neutun.Client.Saved.{
  DaemonEntry, Files, SavedJson, save_daemon_entry, remove_daemon_entry, cleanup_and_list_daemons,
  check_daemon_collision,
}

-- The arguments without `--daemon` and `-D`.
unfoldable pub child_args : List Text → List Text
child_args [] = []
child_args (a ∷ rest_args) =
    let rest = child_args rest_args in
    if not (a == codes "--daemon") && not (a == codes "-D") then a ∷ rest else rest

-- A daemon is started with its arguments, or the program exits with 1.
pub data Started : Type 0 where
  already_running : DaemonEntry → Started
  failed : Started
  started : DaemonEntry → List Text → Started

module _ (j : SavedJson) where
  spawned : Option ℕ → ℕ → Option Text → Text → List Text → Files → Started × Files
  spawned none port subdomain now args f = (failed, f)
  spawned (some pid) port subdomain now args f =
      let entry : DaemonEntry = record {
        pid = pid;
        port = port;
        subdomain = subdomain;
        started_at = now;
      } in
      (started entry (child_args args), save_daemon_entry j entry f)

  unless_running :
      Option DaemonEntry → Option ℕ → ℕ → Option Text → Text → List Text → Files → Started × Files
  unfolding spawned
  unless_running (some existing) pid port subdomain now args f = (already_running existing, f)
  unless_running none pid port subdomain now args f = spawned pid port subdomain now args f

  module _ (is_pid_alive : ℕ → Bool) where
    -- `pid` is that of the child, if it can be spawned.
    unfoldable pub start_daemon :
        Option ℕ → ℕ → Option Text → Text → List Text → Files → Started × Files
    unfolding unless_running
    start_daemon pid port subdomain now args f =
        let (existing, f') = check_daemon_collision j is_pid_alive port subdomain f in
        unless_running existing pid port subdomain now args f'

    -- Whether the process is killed; its entry goes in either case.
    unfoldable pub stop_daemon : ℕ → Files → Bool × Files
    stop_daemon pid f = (is_pid_alive pid, remove_daemon_entry j pid f)

    unfoldable pub remove_entries : List DaemonEntry → Files → List ℕ × Files
    remove_entries [] f = ([], f)
    remove_entries (d ∷ ds) f =
        let (pids, f') = remove_entries ds (remove_daemon_entry j d.pid f) in (d.pid ∷ pids, f')

    -- The processes that are killed, and the files.
    unfoldable pub stop_all_daemons : Files → List ℕ × Files
    unfolding remove_entries
    stop_all_daemons f =
        let (live, f') = cleanup_and_list_daemons j is_pid_alive f in remove_entries live f'

    -- What `list_daemons` lists; the layout of the table is not modelled.
    unfoldable pub list_daemons : Files → List DaemonEntry × Files
    list_daemons f = cleanup_and_list_daemons j is_pid_alive f

-- `neutun daemon`.
pub data DaemonAction : Type 0 where
  ls stop_all : DaemonAction
  stop : ℕ → DaemonAction

pub data DaemonReport : Type 0 where
  listed : List DaemonEntry → DaemonReport
  stopped : Bool → DaemonReport
  all_stopped : List ℕ → DaemonReport

module _ (j : SavedJson) (is_pid_alive : ℕ → Bool) where
  unfoldable pub handle_daemon_action : DaemonAction → Files → DaemonReport × Files
  handle_daemon_action ls f =
      let (daemons, f') = list_daemons j is_pid_alive f in (listed daemons, f')
  handle_daemon_action (stop pid) f =
      let (killed, f') = stop_daemon j is_pid_alive pid f in (stopped killed, f')
  handle_daemon_action stop_all f =
      let (pids, f') = stop_all_daemons j is_pid_alive f in (all_stopped pids, f')
