-- ===== src/Client/Settings/Edits.antt =====
-- The configuration file against one optional record.
use neutun.Base.{◌==◌, ◌≡◌, refl, ap, ◌∙◌, Option, some, codes, List, [], ◌∷◌, arith}
use neutun.Table
use neutun.Str.{Unicode, to_lowercase}
use neutun.Server.Config.{unwrap_or}
use neutun.Client.Saved.{
  NeutunConfig, default, Files, SavedJson, ReadsBack, load_config, save_config,
}
use neutun.Client.Settings.{
  ConfigAction, show, host, ctrl_host, tls, key, ctrl_port, port, onboard, handle_config_action,
  handle_config_actions,
}

module _ (u : Unicode) where
  -- The action on the record.
  abbrev pub edit : ConfigAction → NeutunConfig → NeutunConfig
  edit show c = c
  edit (host d) c = record c { host = d }
  edit (ctrl_host h) c = record c { ctrl_host = some h }
  edit (tls status) c = record c { tls = to_lowercase u status == codes "on" }
  edit (key k) c = record c { key = some k }
  edit (ctrl_port p) c = record c { ctrl_port = p }
  edit (port p) c = record c { port = p }
  edit (onboard config) c = config

  abbrev pub edited : ConfigAction → Option NeutunConfig → Option NeutunConfig
  edited show c = c
  edited a c = some (edit a (unwrap_or c default))

  abbrev pub all_edited : List ConfigAction → Option NeutunConfig → Option NeutunConfig
  all_edited [] c = c
  all_edited (a ∷ rest) c = all_edited rest (edited a c)

  module _ (j : SavedJson)
      (law : (c : NeutunConfig) → ReadsBack j.config_from_str j.config_to_string c) where
    load_config-save_config :
        (c : NeutunConfig) (f : Files) → load_config j (save_config j c f) ≡ some c
    unfolding load_config save_config
    load_config-save_config c f = ground (
      arith,
      Table.get-insert (codes "config.json") (codes "config.json") (j.config_to_string c)
          f.settings,
      law c,
    )

    one_action :
        (a : ConfigAction) (f : Files)
        → load_config j (handle_config_action u j a f) ≡ edited a (load_config j f)
    unfolding handle_config_action
    one_action show f = refl
    one_action (host d) f = load_config-save_config _ f
    one_action (ctrl_host h) f = load_config-save_config _ f
    one_action (tls status) f = load_config-save_config _ f
    one_action (key k) f = load_config-save_config _ f
    one_action (ctrl_port p) f = load_config-save_config _ f
    one_action (port p) f = load_config-save_config _ f
    one_action (onboard config) f = load_config-save_config _ f

    kept :
        (a : ConfigAction) (f : Files)
        → ((handle_config_action u j a f).saves ≡ f.saves)
          × ((handle_config_action u j a f).daemons ≡ f.daemons)
    unfolding handle_config_action save_config
    kept show f = (refl, refl)
    kept _ f = (refl, refl)

    -- Any runs of `neutun config` act on the configuration file as their edits act, in order, on one
    -- optional record that starts from the defaults if there is none, and leave the saved sessions
    -- and the daemons as they were.
    pub load_config-handle_config_actions :
        (actions : List ConfigAction) (f : Files)
        → (load_config j (handle_config_actions u j actions f)
            ≡ all_edited actions (load_config j f))
          × ((handle_config_actions u j actions f).saves ≡ f.saves)
          × ((handle_config_actions u j actions f).daemons ≡ f.daemons)
    unfolding handle_config_actions
    load_config-handle_config_actions [] f = (refl, refl, refl)
    load_config-handle_config_actions (a ∷ rest) f =
        let (loaded, saves, daemons) =
          load_config-handle_config_actions rest (handle_config_action u j a f) in
        let (same_saves, same_daemons) = kept a f in
        (loaded ∙ ap (all_edited rest) (one_action a f), saves ∙ same_saves, daemons ∙ same_daemons)
