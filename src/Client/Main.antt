-- ===== src/Client/Main.antt =====
-- `main` of neutun/src/main.rs, its subcommands, and what each run of the program ends in.
pub mod Child
pub mod Restoring
use neutun.Base.{
  ℕ, Text, if◌then◌else◌, Bool, true, false, Option, none, some, String, codes, List, ◌++◌, Result,
  ok, err, not,
}
use neutun.Codecs.{Codecs}
use neutun.Str.{Unicode}
use neutun.Str.Numbers.{show}
use neutun.Server.Config.{unwrap_or}
use neutun.Client.Config.{Config}
use neutun.Client.Saved.{
  NeutunConfig, default, effective_ctrl_host, SessionConfig, Files, SavedJson, load_config,
  load_session, list_sessions, delete_session,
}
use neutun.Client.Saved.Sessions.{saves_add}
use neutun.Client.Options.{Opts, control_api_url_of, from_opts, from_opts_and_session}
use neutun.Client.Daemon.{Started, start_daemon, DaemonAction, DaemonReport, handle_daemon_action}
use neutun.Client.Settings.{ConfigAction, handle_config_action}
use neutun.Client.Interactive.{
  Stdin, InteractiveResult, start_tunnel, restore_session, just_onboarded, exits as exited,
  run_interactive, build_config_from_interactive,
}

pub data SavesAction : Type 0 where
  ls : SavesAction
  add rm : Text → SavesAction
  restore : Text → Bool → SavesAction

pub data ServerAction : Type 0 where
  domains taken : ServerAction

pub data SubCommand : Type 0 where
  config : ConfigAction → SubCommand
  saves : SavesAction → SubCommand
  daemon : DaemonAction → SubCommand
  server : ServerAction → SubCommand

-- `Opts`, with the flags and the subcommand that only `main` reads.
pub record Cli : Type 0 where
  pub print_version : Bool
  pub command : Option SubCommand
  pub opts : Opts
  pub daemon : Bool

-- What `neutun server` prints: the list that the server answers with, or which step failed.
pub data Fetched : Type 0 where
  printed : List Text → Fetched
  not_fetched not_parsed : Fetched

-- How a run of the program ends: it runs the tunnel, or it is done after what it reports.
pub data Ended : Type 0 where
  version configured onboarded unresolved exits panics : Ended
  sessions : List SessionConfig → Ended
  saved no_last_session session_not_found deleted : Ended
  daemons : DaemonReport → Ended
  fetched : Fetched → Ended
  daemon_start : Started → Ended
  tunnel : Config → Ended

fetch_result : Option (Option (List Text)) → Fetched
fetch_result none = not_fetched
fetch_result (some none) = not_parsed
fetch_result (some (some names)) = printed names

-- `fetch` is a GET request: nothing if it fails, and the body if it is a list of texts.
module _ (j : SavedJson) (fetch : Text → Option (Option (List Text))) where
  unfoldable pub api_url : NeutunConfig → Text
  api_url c = control_api_url_of (not c.tls) (effective_ctrl_host c) c.ctrl_port

  unfoldable pub handle_server_action : ServerAction → Files → Fetched
  unfolding fetch_result
  handle_server_action domains f =
      fetch_result (fetch (api_url (unwrap_or (load_config j f) default) ++ codes "/api/domains"))
  handle_server_action taken f =
      fetch_result (fetch (api_url (unwrap_or (load_config j f) default) ++ codes "/api/taken"))

abbrev ended_with : {A : Type 0} → (A → Ended) → A × Files → Ended × Files
ended_with report (a, f) = (report a, f)

resolved_tunnel : Result Config (Unit {0}) → Ended
resolved_tunnel (ok c) = tunnel c
resolved_tunnel (err _) = unresolved

-- What a run is given: the addresses, random bytes, the process that would be spawned, the time and
-- the arguments behind the program's name.
pub record Surroundings : Type 0 where
  pub codecs : Codecs
  pub unicode : Unicode
  pub json : SavedJson
  pub resolve : Text → ℕ → Option Text
  pub fetch : Text → Option (Option (List Text))
  pub is_pid_alive : ℕ → Bool
  pub random : Text
  pub pid : Option ℕ
  pub now : Text
  pub args : List Text

module _ (e : Surroundings) where
  open e use {codecs, unicode, json, resolve, fetch, is_pid_alive, random, pid, now, args}

  daemon_of : ℕ → Option Text → Files → Ended × Files
  daemon_of port subdomain f =
      ended_with daemon_start (start_daemon json is_pid_alive pid port subdomain now args f)

  session_tunnel : Opts → SessionConfig → Files → Ended × Files
  unfolding resolved_tunnel
  session_tunnel opts session f =
      (resolved_tunnel (from_opts_and_session codecs resolve random json opts (some session) f), f)

  restored : Option SessionConfig → Bool → Opts → Files → Ended × Files
  unfolding daemon_of session_tunnel
  restored none run_as_daemon opts f = (session_not_found, f)
  restored (some session) run_as_daemon opts f =
      if run_as_daemon
      then daemon_of session.port session.subdomain f
      else session_tunnel opts session f

  added : Option Files → Files → Ended × Files
  added none f = (no_last_session, f)
  added (some f') f = (saved, f')

  unfoldable pub handle_saves_action : SavesAction → Opts → Files → Ended × Files
  unfolding restored added
  handle_saves_action ls opts f = (sessions (list_sessions json f), f)
  handle_saves_action (add name) opts f = added (saves_add json name f) f
  handle_saves_action (restore name run_as_daemon) opts f =
      restored (load_session json name f) run_as_daemon opts f
  handle_saves_action (rm name) opts f =
      ended_with (λ there. if there then deleted else session_not_found)
        (delete_session json name f)

  handle_command : SubCommand → Opts → Files → Ended × Files
  unfolding handle_saves_action
  handle_command (config action) opts f = (configured, handle_config_action unicode json action f)
  handle_command (saves action) opts f = handle_saves_action action opts f
  handle_command (daemon action) opts f =
      ended_with daemons (handle_daemon_action json is_pid_alive action f)
  handle_command (server action) opts f = (fetched (handle_server_action json fetch action f), f)

  built : Option Config → Ended
  built none = panics
  built (some c) = tunnel c

  after_interactive : Opts → Option InteractiveResult × Files → Ended × Files
  unfolding built restored
  after_interactive opts (some (start_tunnel params), f) = (
    built (
        build_config_from_interactive codecs resolve random params
          (unwrap_or (load_config json f) default)),
    f,
  )
  after_interactive opts (some (restore_session session run_as_daemon), f) =
      restored (some session) run_as_daemon opts f
  after_interactive opts (some just_onboarded, f) = (onboarded, f)
  after_interactive opts (some exited, f) = (exits, f)
  after_interactive opts (none, f) = (panics, f)

  without_command : Option ℕ → Bool → Opts → Stdin → Files → Ended × Files
  unfolding after_interactive resolved_tunnel daemon_of
  without_command none run_as_daemon opts stdin f =
      after_interactive opts (run_interactive unicode json stdin f)
  without_command (some port) run_as_daemon opts stdin f =
      if run_as_daemon
      then daemon_of port opts.sub_domain f
      else (resolved_tunnel (from_opts codecs resolve random json opts f), f)

  by_command : Option SubCommand → Bool → Opts → Stdin → Files → Ended × Files
  unfolding handle_command without_command
  by_command (some command) run_as_daemon opts stdin f = handle_command command opts f
  by_command none run_as_daemon opts stdin f = without_command opts.port run_as_daemon opts stdin f

  unfoldable pub main : Cli → Stdin → Files → Ended × Files
  unfolding by_command
  main cli stdin f =
      if cli.print_version then (version, f) else by_command cli.command cli.daemon cli.opts stdin f
