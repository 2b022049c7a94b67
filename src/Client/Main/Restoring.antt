-- ===== src/Client/Main/Restoring.antt =====
-- A tunnel whose session is saved by `neutun saves add` and restored.
use neutun.Base.{
  ℕ, Text, ◌≡◌, sym, ◌∙◌, false, Option, none, some, List, codes, ◌++◌, ok, Result, err, arith,
}
use neutun.Server.Config.{unwrap_or}
use neutun.Client.Config.{Config}
use neutun.Client.Saved.{
  default, SessionConfig, Files, ReadsBack, load_config, load_session, save_last_session,
}
use neutun.Client.Saved.Sessions.{saves_add, load_session-saves_add}
use neutun.Client.Options.{Opts, control_url_of, from_opts_and_session, last_session}
use neutun.Client.Options.Restored.{from_opts_and_session-name, from_opts_and_session-last_session}
use neutun.Client.Wormhole.{open_wormhole}
use neutun.Client.Main.{
  Surroundings, tunnel, saved, add, restore, handle_saves_action, resolved_tunnel,
}

resolved_tunnel-eq :
    (r : Result Config (Unit {0})) (c : Config) → resolved_tunnel r ≡ tunnel c → r ≡ ok c
unfolding resolved_tunnel
resolved_tunnel-eq (ok d) c e = ground arith
resolved_tunnel-eq (err _) c e = absurd (ground arith)

module _ (e : Surroundings) (opts : Opts) (config : Config) (name : Text) where
  abbrev named : SessionConfig
  named = record (last_session config) { name = name }

  restored_tunnel :
      (f : Files) (c : Config)
      → load_session e.json name f ≡ some named
      → (handle_saves_action e (restore name false) opts f).0 ≡ tunnel c
      → from_opts_and_session e.codecs e.resolve e.random e.json opts (some named) f ≡ ok c
  unfolding handle_saves_action
  restored_tunnel f c found t = resolved_tunnel-eq _ c (ground arith)

  added_session :
      (f g : Files)
      → handle_saves_action e (add name) opts f ≡ (saved, g)
      → saves_add e.json name f ≡ some g
  unfolding handle_saves_action
  added_session f g a = ground arith

  -- A tunnel that is opened, saved by `saves add` and restored by `saves restore` has the local
  -- port, the sub-domain and the TLS setting of the control server that it had, if no option sets
  -- them, but not its control server: it connects to port 0 of the default control host, whatever
  -- server and port are configured.
  pub handle_saves_action-restore :
      (introspect_port : ℕ) (taken : Option (List Text)) (sub_domain hostname : Text) (f g : Files)
      (c : Config)
      → ReadsBack e.json.session_from_str e.json.session_to_string (last_session config)
      → ReadsBack e.json.session_from_str e.json.session_to_string named
      → opts.port ≡ none
      → opts.sub_domain ≡ none
      → handle_saves_action e
          (add name)
          opts
          (open_wormhole e.json config introspect_port taken (ok (sub_domain, hostname)) f).1
        ≡ (saved, g)
      → (handle_saves_action e (restore name false) opts g).0 ≡ tunnel c
      → (c.local_port ≡ config.local_port)
        × (c.sub_domain ≡ config.sub_domain)
        × (c.control_tls_off ≡ config.control_tls_off)
        × (c.control_url
            ≡ control_url_of config.control_tls_off
                (codes "wormhole." ++ (unwrap_or (load_config e.json g) default).host)
                0)
  unfolding open_wormhole
  handle_saves_action-restore introspect_port taken sub_domain hostname f g c law law' p s a r =
      let last = last_session config in
      let stored = save_last_session e.json last f in
      let found = load_session-saves_add e.json last name f g law law' (added_session stored g a) in
      from_opts_and_session-last_session e.codecs e.resolve e.random e.json opts g config c p s (
        sym (from_opts_and_session-name e.codecs e.resolve e.random e.json opts g last name)
        ∙ restored_tunnel g c found r)
