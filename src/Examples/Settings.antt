-- ===== src/Examples/Settings.antt =====
-- The files of the client, and what is made of them.
use neutun.Base.{ℕ, Text, Text-discrete, ◌≡◌, refl, true, false, Option, none, some, codes, [], ◌∷◌}
use neutun.Utf8.{from_utf8}
use neutun.Table
use neutun.Str.{to_lowercase}
use neutun.Client.Config.{Config}
use neutun.Client.Saved.{
  ReadsBack, default, Files, load_config, save_session, load_session, delete_session,
}
use neutun.Client.Saved.Sessions.{Deleted, load_session-save_session}
use neutun.Client.Options.{Opts, control_url_of}
use neutun.Client.Settings.{port, tls, handle_config_actions}
use neutun.Client.Settings.Edits.{load_config-handle_config_actions}
use neutun.Examples.{ascii}
use neutun.Examples.Saved.{session, daemon, saved_json, saved_json-ReadsBack}
use neutun.Examples.Clientside.{keyless}

abbrev pub no_files : Files
no_files = record { settings = []; saves = []; daemons = [] }

session_law : ReadsBack saved_json.session_from_str saved_json.session_to_string session
unfolding from_utf8
session_law = refl

load_session-save_session_example :
    (load_session saved_json (codes "web") (save_session saved_json session no_files)
      ≡ some session)
    × (load_session saved_json (codes "web") (delete_session saved_json (codes "web") no_files).1
        ≡ none)
    × Deleted (codes "web") no_files (delete_session saved_json (codes "web") no_files)
    × ((delete_session saved_json (codes "web") (save_session saved_json session no_files)).0
        ≡ true)
    × ((delete_session saved_json (codes "web")
            (delete_session saved_json (codes "web") (save_session saved_json session no_files)).1).0
        ≡ false)
unfolding Text-discrete
load_session-save_session_example =
    load_session-save_session saved_json session (codes "web") no_files session_law

pub daemon_law : ReadsBack saved_json.daemon_from_str saved_json.daemon_to_string daemon
unfolding from_utf8
daemon_law = refl

abbrev pub recorded : Files
recorded = record no_files { daemons = (codes "65.json", 65 ∷ []) ∷ [] }

-- Another daemon was recorded meanwhile, and has ended.
abbrev recorded_later : Files
recorded_later = record no_files {
  daemons = (codes "70.json", 70 ∷ []) ∷ (codes "65.json", 65 ∷ []) ∷ [];
}

abbrev pub no_opts : Opts
no_opts = record {
  key = none;
  sub_domain = none;
  domain = none;
  local_host = codes "localhost";
  use_tls = false;
  port = none;
  dashboard_port = none;
  wildcard = false;
  verbose = false;
}

abbrev pub resolve : Text → ℕ → Option Text
resolve host _ = some host

abbrev pub restored : Config
restored = record keyless {
  client_id = codes "r";
  control_url = control_url_of false (codes "wormhole.neutun.dev") 0;
  control_api_url = codes "https://wormhole.neutun.dev:0";
  host = codes "neutun.dev";
  local_addr = codes "localhost";
  domain = some (codes "t.io");
}

load_config-handle_config_actions_example :
    let f = handle_config_actions ascii saved_json (port 3000 ∷ tls (codes "off") ∷ []) no_files in
    (load_config saved_json f ≡ some (record default { port = 3000; tls = false }))
    × (f.saves ≡ [])
    × (f.daemons ≡ [])
unfolding load_config Table.get Text-discrete to_lowercase
load_config-handle_config_actions_example =
    load_config-handle_config_actions ascii saved_json saved_json-ReadsBack
      (port 3000 ∷ tls (codes "off") ∷ []) no_files

-- A new user with an old port file, who starts a tunnel by choosing B and pressing Enter.
abbrev pub legacy : Files
legacy = record no_files { settings = (codes "port.txt", codes "4000") ∷ [] }
