-- ===== src/Client/Settings.antt =====
-- `handle_config_action` of neutun/src/main.rs.
pub mod Edits
use neutun.Base.{ℕ, Text, ◌==◌, Option, none, some, String, codes, List, [], ◌∷◌}
use neutun.Str.{Unicode, to_lowercase}
use neutun.Server.Config.{unwrap_or}
use neutun.Client.Saved.{NeutunConfig, default, Files, SavedJson, load_config, save_config}

-- The wizard's action carries the configuration that the user's answers make.
pub data ConfigAction : Type 0 where
  show : ConfigAction
  host ctrl_host tls key : Text → ConfigAction
  ctrl_port port : ℕ → ConfigAction
  onboard : NeutunConfig → ConfigAction

module _ (u : Unicode) (j : SavedJson) where
  unfoldable pub handle_config_action : ConfigAction → Files → Files
  handle_config_action show f = f
  handle_config_action (host domain) f =
      save_config j (record (unwrap_or (load_config j f) default) { host = domain }) f
  handle_config_action (ctrl_host h) f =
      save_config j (record (unwrap_or (load_config j f) default) { ctrl_host = some h }) f
  handle_config_action (ctrl_port p) f =
      save_config j (record (unwrap_or (load_config j f) default) { ctrl_port = p }) f
  handle_config_action (tls status) f =
      save_config j
        (record (unwrap_or (load_config j f) default) { tls = to_lowercase u status == codes "on" })
        f
  handle_config_action (port p) f =
      save_config j (record (unwrap_or (load_config j f) default) { port = p }) f
  handle_config_action (key k) f =
      save_config j (record (unwrap_or (load_config j f) default) { key = some k }) f
  handle_config_action (onboard config) f = save_config j config f

  -- Several runs of the program.
  unfoldable pub handle_config_actions : List ConfigAction → Files → Files
  unfolding handle_config_action
  handle_config_actions [] f = f
  handle_config_actions (a ∷ rest) f = handle_config_actions rest (handle_config_action a f)
