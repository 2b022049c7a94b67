-- ===== src/Client/Saved.antt =====
-- neutun/src/saved_config.rs: the files under the settings directory.
pub mod Sessions
use neutun.Base.{
  ℕ, ◌≡◌, Text, ◌==◌, eqb, ltb, if◌then◌else◌, Bool, true, false, not, ◌&&◌, ◌||◌, Option, none,
  some, String, codes, List, [], ◌∷◌, ◌++◌, length,
}
use mathlib.Core.Option
use neutun.Table
use neutun.Table.{Table}
use neutun.Utf8.{from_utf8}
use neutun.Str.{trim, ends_with}
use neutun.Str.Numbers.{parse_u16, show}
use neutun.Server.Config.{unwrap_or}

pub record NeutunConfig : Type 0 where
  pub host : Text
  pub ctrl_host : Option Text
  pub ctrl_port : ℕ
  pub tls : Bool
  pub port : ℕ
  pub key : Option Text

abbrev pub default : NeutunConfig
default = record {
  host = codes "neutun.dev";
  ctrl_host = none;
  ctrl_port = 5000;
  tls = true;
  port = 8000;
  key = none;
}

unfoldable pub effective_ctrl_host : NeutunConfig → Text
effective_ctrl_host c = unwrap_or c.ctrl_host (codes "wormhole." ++ c.host)

abbrev mask : Option Text → Text
mask (some _) = codes "****saved****"
mask none = codes "(not set)"

unfoldable pub masked_key : NeutunConfig → Text
masked_key c = mask c.key

pub record SessionConfig : Type 0 where
  pub name : Text
  pub port : ℕ
  pub subdomain : Option Text
  pub domain : Text
  pub key : Option Text
  pub use_tls : Bool
  pub wildcard : Bool
  pub local_host : Text
  pub ctrl_host : Option Text
  pub ctrl_port : ℕ
  pub tls : Bool
  pub dashboard_port : Option ℕ

pub record DaemonEntry : Type 0 where
  pub pid : ℕ
  pub port : ℕ
  pub subdomain : Option Text
  pub started_at : Text

-- The files by name, in the settings directory and its two subdirectories. Names have no slash.
pub record Files : Type 0 where
  pub settings : Table Text
  pub saves : Table Text
  pub daemons : Table Text

-- `serde_json` on the three types.
pub record SavedJson : Type 0 where
  pub config_to_string : NeutunConfig → Text
  pub config_from_str : Text → Option NeutunConfig
  pub session_to_string : SessionConfig → Text
  pub session_from_str : Text → Option SessionConfig
  pub daemon_to_string : DaemonEntry → Text
  pub daemon_from_str : Text → Option DaemonEntry

module _ {A : Type 0} (from_str : Text → Option A) where
  abbrev pub parse_text : Option Text → Option A
  parse_text none = none
  parse_text (some t) = from_str t

  -- A file that is not UTF-8 is not read.
  abbrev pub parse_file : Option Text → Option A
  parse_file none = none
  parse_file (some contents) = parse_text (from_utf8 contents)

-- What serde writes of a value is a `String` that it reads back.
abbrev pub ReadsBack : {A : Type 0} → (Text → Option A) → (A → Text) → A → Type 0
ReadsBack from_str to_string a = parse_file from_str (some (to_string a)) ≡ some a

-- `exists`, `read_to_string` and a parser.
abbrev pub read_file : {A : Type 0} → (Text → Option A) → Text → Table Text → Option A
read_file from_str name dir = parse_file from_str (Table.get name dir)

abbrev pub json_file : Text → Text
json_file name = name ++ codes ".json"

-- `extension` is `json`; a name that starts with its only dot has none.
abbrev pub is_json : Text → Bool
is_json name = ends_with name (codes ".json") && ltb 5 (length name)

abbrev pub push {ℓ} : {A : Type ℓ} → Option A → List A → List A
push none rest = rest
push (some a) rest = a ∷ rest

unfoldable pub read_all : {A : Type 0} → (Text → Option A) → Table Text → List A
read_all from_str [] = []
read_all from_str ((name, contents) ∷ dir) =
    let rest = read_all from_str dir in
    if is_json name then push (parse_file from_str (some contents)) rest else rest

abbrev pub exists : Text → Table Text → Bool
exists name dir = elim (Table.get name dir) [ none ↦ false | some _ ↦ true ]

-- The trimmed text of a file that can be read.
abbrev trimmed : Text → Table Text → Option Text
trimmed name dir = Option.map trim (read_file (λ t. some t) name dir)

abbrev non_empty : Option Text → Option Text
non_empty none = none
non_empty (some []) = none
non_empty (some (b ∷ t)) = some (b ∷ t)

abbrev pub same_subdomain : Option Text → Option Text → Bool
same_subdomain none none = true
same_subdomain (some a) (some b) = a == b
same_subdomain _ _ = false

unfoldable pub find_collision : ℕ → Option Text → List DaemonEntry → Option DaemonEntry
find_collision port subdomain [] = none
find_collision port subdomain (d ∷ ds) =
    let rest = find_collision port subdomain ds in
    if eqb d.port port && same_subdomain d.subdomain subdomain then some d else rest

module _ (j : SavedJson) where
  unfoldable pub load_config : Files → Option NeutunConfig
  load_config f = read_file j.config_from_str (codes "config.json") f.settings

  unfoldable pub save_config : NeutunConfig → Files → Files
  save_config config f = record f {
    settings = Table.insert (codes "config.json") (j.config_to_string config) f.settings;
  }

  unfoldable pub is_onboarded : Files → Bool
  is_onboarded f = exists (codes "config.json") f.settings

  abbrev pub has_legacy : Files → Bool
  has_legacy f =
      exists (codes "key.token") f.settings
      || exists (codes "domain.txt") f.settings
      || exists (codes "port.txt") f.settings

  -- What the legacy files say, over the defaults.
  unfoldable pub legacy_config : Files → NeutunConfig
  unfolding trim
  legacy_config f = record default {
    host = unwrap_or (non_empty (trimmed (codes "domain.txt") f.settings)) default.host;
    port = unwrap_or (Option.bind (trimmed (codes "port.txt") f.settings) parse_u16) default.port;
    key = non_empty (trimmed (codes "key.token") f.settings);
  }

  unfoldable pub migrate_legacy_config : Files → Option NeutunConfig × Files
  migrate_legacy_config f =
      if has_legacy f then (some (legacy_config f), save_config (legacy_config f) f) else (none, f)

  unfoldable pub save_session : SessionConfig → Files → Files
  save_session session f = record f {
    saves = Table.insert (json_file session.name) (j.session_to_string session) f.saves;
  }

  unfoldable pub load_session : Text → Files → Option SessionConfig
  load_session name f = read_file j.session_from_str (json_file name) f.saves

  unfoldable pub list_sessions : Files → List SessionConfig
  list_sessions f = read_all j.session_from_str f.saves

  -- Whether the file was there and is removed.
  unfoldable pub delete_session : Text → Files → Bool × Files
  delete_session name f =
      if exists (json_file name) f.saves
      then (true, record f { saves = Table.remove (json_file name) f.saves })
      else (false, f)

  unfoldable pub save_last_session : SessionConfig → Files → Files
  save_last_session session f = record f {
    settings = Table.insert (codes "last_session.json") (j.session_to_string session) f.settings;
  }

  unfoldable pub load_last_session : Files → Option SessionConfig
  load_last_session f = read_file j.session_from_str (codes "last_session.json") f.settings

  unfoldable pub save_daemon_entry : DaemonEntry → Files → Files
  save_daemon_entry entry f = record f {
    daemons = Table.insert (json_file (show entry.pid)) (j.daemon_to_string entry) f.daemons;
  }

  unfoldable pub remove_daemon_entry : ℕ → Files → Files
  remove_daemon_entry pid f = record f { daemons = Table.remove (json_file (show pid)) f.daemons }

  unfoldable pub list_daemon_entries : Files → List DaemonEntry
  list_daemon_entries f = read_all j.daemon_from_str f.daemons

  module _ (is_pid_alive : ℕ → Bool) where
    unfoldable pub cleanup : List DaemonEntry → Files → List DaemonEntry × Files
    cleanup [] f = ([], f)
    cleanup (entry ∷ entries) f =
        let kept = cleanup entries f in
        let dropped = cleanup entries (remove_daemon_entry entry.pid f) in
        if is_pid_alive entry.pid then (entry ∷ kept.0, kept.1) else dropped

    unfoldable pub cleanup_and_list_daemons : Files → List DaemonEntry × Files
    unfolding cleanup
    cleanup_and_list_daemons f = cleanup (list_daemon_entries f) f

    unfoldable pub check_daemon_collision : ℕ → Option Text → Files → Option DaemonEntry × Files
    unfolding find_collision
    check_daemon_collision port subdomain f =
        let (live, f') = cleanup_and_list_daemons f in (find_collision port subdomain live, f')
