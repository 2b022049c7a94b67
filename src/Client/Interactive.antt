-- ===== src/Client/Interactive.antt =====
-- neutun/src/interactive.rs, and what neutun/src/main.rs makes of its result. The lines of the
-- standard input are a list, which each question takes one from; at its end a line is empty. `none`
-- is a panic: of `read_line(..).unwrap()`, of the `expect` on the configuration, or of the
-- `unreachable!` after the menu. What is printed is not modelled.
pub mod Choices
use neutun.Base.{
  ℕ, zero, suc, ◌-◌, Text, ◌==◌, eqb, ltb, leb, if◌then◌else◌, Bool, true, false, not, ◌&&◌, ◌||◌, Option,
  none, some, String, codes, List, [], ◌∷◌, ◌++◌, length,
}
use neutun.Codecs.{Codecs}
use neutun.Utf8.{chars, from_utf8}
use neutun.Str.{Unicode, to_lowercase, to_uppercase, trim}
use neutun.Str.Numbers.{parse_u16, parse_unsigned, show}
use neutun.Protocol.Hello.{generate_client_id}
use neutun.Server.Config.{or_else, unwrap_or}
use neutun.Client.Config.{Config}
use neutun.Client.Saved.{
  NeutunConfig, default, effective_ctrl_host, masked_key, SessionConfig, Files, SavedJson,
  is_onboarded, load_config, save_config, migrate_legacy_config, list_sessions,
}
use neutun.Client.Options.{control_url_of, control_api_url_of}

infixl 5 ◌>>=◌
abbrev ◌>>=◌ : {A B : Type 0} → Option A → (A → Option B) → Option B
none >>= f = none
some a >>= f = f a

-- What each read of a line gives: an I/O error, or bytes.
abbrev pub Stdin : Type 0
Stdin = List (Option Text)

after_read : Option Text → Stdin → Option (Text × Stdin)
after_read none rest = none
after_read (some line) rest = some (trim line, rest)

-- A line that is not UTF-8 is an error as well.
unfoldable pub read_line : Stdin → Option (Text × Stdin)
unfolding after_read
read_line [] = some ([], [])
read_line (none ∷ rest) = none
read_line (some bytes ∷ rest) = after_read (from_utf8 bytes) rest

abbrev pub if_empty : Text → Text → Text
if_empty [] default_text = default_text
if_empty (b ∷ t) default_text = b ∷ t

unfoldable pub get_input : Text → Stdin → Option (Text × Stdin)
get_input default_text stdin = do
  (input, rest) ← read_line stdin
  some (if_empty input default_text, rest)

abbrev pub parse_usize : Text → Option ℕ
parse_usize = parse_unsigned 18446744073709551616

-- The option that a number names, from 1 on.
abbrev by_number : Option ℕ → ℕ → ℕ
by_number none options = 0
by_number (some n) options = if leb 1 n && leb n options then n - 1 else 0

-- The option that a letter names, from A on, or else the number.
choice_of : List ℕ → Text → ℕ → ℕ
choice_of [] input options = 0
choice_of (c ∷ _) input options =
    if leb b'A' c && leb c b'Z' && ltb (c - b'A') options
    then c - b'A'
    else by_number (parse_usize input) options

abbrev pub non_empty : Text → Option Text
non_empty [] = none
non_empty (b ∷ t) = some (b ∷ t)

abbrev unless : Text → Text → Option Text
unless t usual = if t == usual then none else some t

pub record InteractiveParams : Type 0 where
  pub port : ℕ
  pub subdomain : Option Text
  pub domain : Option Text
  pub key : Option Text
  pub use_tls : Bool
  pub wildcard : Bool

-- `exits` is the exit of the program without saved sessions.
pub data InteractiveResult : Type 0 where
  start_tunnel : InteractiveParams → InteractiveResult
  restore_session : SessionConfig → Bool → InteractiveResult
  just_onboarded exits : InteractiveResult

-- An element of a non-empty list; past the end, the last one, as by `min(len - 1)`.
abbrev pub nth_or_last : ℕ → SessionConfig → List SessionConfig → SessionConfig
nth_or_last n s [] = s
nth_or_last n s (t ∷ rest) = let later = nth_or_last (n - 1) t rest in if eqb n 0 then s else later

module _ (u : Unicode) (j : SavedJson) where
  unfoldable pub get_choice : ℕ → Stdin → Option (ℕ × Stdin)
  unfolding choice_of
  get_choice options stdin = do
    (line, rest) ← read_line stdin
    let input = to_uppercase u line
    some (choice_of (chars input) input options, rest)

  abbrev says_yes : Text → Bool
  says_yes t = let t = to_lowercase u t in t == codes "yes" || t == codes "y"

  -- The configuration of the five answers.
  abbrev pub onboarding_config : Text → Text → Text → Text → Text → NeutunConfig
  onboarding_config host ctrl_host_input ctrl_port_str tls_input key_input = record {
    host = host;
    ctrl_host = unless ctrl_host_input (codes "wormhole." ++ host);
    ctrl_port = unwrap_or (parse_u16 ctrl_port_str) 5000;
    tls = not (to_lowercase u tls_input == codes "off");
    port = 8000;
    key = non_empty key_input;
  }

  unfoldable pub run_onboarding : Stdin → Files → Option (NeutunConfig × Files)
  unfolding get_input
  run_onboarding stdin0 f = do
    (host, stdin1) ← get_input (codes "neutun.dev") stdin0
    let default_ctrl_host = codes "wormhole." ++ host
    (ctrl_host_input, stdin2) ← get_input default_ctrl_host stdin1
    (ctrl_port_str, stdin3) ← get_input (show 5000) stdin2
    (tls_input, stdin4) ← get_input (codes "on") stdin3
    (key_input, stdin5) ← get_input [] stdin4
    let config =
        onboarding_config host ctrl_host_input ctrl_port_str tls_input key_input
    some (config, save_config j config f)

  unfoldable pub run_quick_start : NeutunConfig → Stdin → Option InteractiveResult
  unfolding get_input
  run_quick_start config stdin = do
    (port_str, _) ← get_input (show config.port) stdin
    some (
      start_tunnel (record {
        port = unwrap_or (parse_u16 port_str) config.port;
        subdomain = none;
        domain = none;
        key = config.key;
        use_tls = false;
        wildcard = false;
      }))

  asked_subdomain : ℕ → Stdin → Option (Option Text × Stdin)
  unfolding get_input
  asked_subdomain zero stdin = do
    (s, rest) ← get_input [] stdin
    some (non_empty s, rest)
  asked_subdomain (suc n) stdin = some (none, stdin)

  unfoldable pub run_customize : NeutunConfig → Stdin → Option InteractiveResult
  unfolding get_input asked_subdomain get_choice
  run_customize config stdin0 = do
    (port_str, stdin1) ← get_input (show config.port) stdin0
    (sub_choice, stdin2) ← get_choice 2 stdin1
    (subdomain, stdin3) ← asked_subdomain sub_choice stdin2
    (domain_input, stdin4) ← get_input config.host stdin3
    (key_input, stdin5) ← get_input (masked_key config) stdin4
    (tls_input, stdin6) ← get_input (codes "no") stdin5
    (wildcard_input, _) ← get_input (codes "no") stdin6
    some (
      start_tunnel (record {
        port = unwrap_or (parse_u16 port_str) config.port;
        subdomain = subdomain;
        domain = unless domain_input config.host;
        key =
            if key_input == masked_key config || key_input == []
            then config.key
            else some key_input;
        use_tls = says_yes tls_input;
        wildcard = says_yes wildcard_input;
      }))

  restored : List SessionConfig → Stdin → Option InteractiveResult
  unfolding get_input
  restored [] stdin = some exits
  restored (s ∷ sessions) stdin = do
    (selection, _) ← get_input (codes "1") stdin
    some (restore_session (nth_or_last (unwrap_or (parse_usize selection) 1 - 1) s sessions) false)

  unfoldable pub run_restore : Stdin → Files → Option InteractiveResult
  unfolding restored
  run_restore stdin f = restored (list_sessions j f) stdin

  by_choice : NeutunConfig → ℕ → Stdin → Files → Option InteractiveResult
  unfolding run_quick_start run_customize run_restore
  by_choice config choice stdin f =
      if eqb choice 0
      then run_quick_start config stdin
      else if eqb choice 1
      then run_customize config stdin
      else if eqb choice 2
      then run_restore stdin f
      else none

  menu : Option NeutunConfig → Stdin → Files → Option InteractiveResult
  unfolding by_choice get_choice
  menu loaded stdin f = do
    config ← loaded
    (choice, rest) ← get_choice 3 stdin
    by_choice config choice rest f

  onboarded : Option (NeutunConfig × Files) → Files → Option InteractiveResult × Files
  onboarded none f = (none, f)
  onboarded (some (_, f')) f = (some just_onboarded, f')

  migrated : Option NeutunConfig × Files → Stdin → Option InteractiveResult × Files
  unfolding run_onboarding menu onboarded
  migrated (none, f) stdin = onboarded (run_onboarding stdin f) f
  migrated (some _, f) stdin = (menu (load_config j f) stdin f, f)

  unfoldable pub run_interactive : Stdin → Files → Option InteractiveResult × Files
  unfolding migrated
  run_interactive stdin f =
      if is_onboarded j f
      then (menu (load_config j f) stdin f, f)
      else migrated (migrate_legacy_config j f) stdin

-- `none` is the panic of a failed `expect`.
unfoldable pub build_config_from_interactive :
    Codecs → (Text → ℕ → Option Text) → Text → InteractiveParams → NeutunConfig → Option Config
build_config_from_interactive k resolve random params saved =
    elim (resolve (codes "localhost") params.port) [
      | none ↦ none
      | some local_addr ↦ some (record {
        client_id = generate_client_id k random;
        control_url = control_url_of (not saved.tls) (effective_ctrl_host saved) saved.ctrl_port;
        control_api_url =
            control_api_url_of (not saved.tls) (effective_ctrl_host saved) saved.ctrl_port;
        use_tls = params.use_tls;
        host = saved.host;
        local_host = codes "localhost";
        local_port = params.port;
        local_addr = local_addr;
        sub_domain = params.subdomain;
        domain = or_else params.domain (some saved.host);
        secret_key = params.key;
        control_tls_off = not saved.tls;
        first_run = true;
        dashboard_port = 0;
        verbose = false;
        wildcard = params.wildcard;
      })
    ]
