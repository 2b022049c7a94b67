-- ===== src/Examples/Programs.antt =====
-- Runs of the client's program: one that starts a daemon, and one that restores a saved tunnel.
use neutun.Base.{Text, Text-discrete, ◌≡◌, refl, true, false, ◌||◌, none, some, codes, List, [], ◌∷◌, ok}
use neutun.Codecs.{plain_codecs}
use neutun.Utf8.{from_utf8}
use neutun.Table
use neutun.Str.{contains}
use neutun.Str.Numbers.{show, show_onto}
use neutun.Protocol.Hello.{generate_client_id}
use neutun.Client.Saved.{
  Files, ReadsBack, load_config, load_session, save_session, save_last_session, load_last_session,
}
use neutun.Client.Saved.Sessions.{saves_add}
use neutun.Client.Options.{control_url_of, from_opts_and_session, last_session}
use neutun.Client.Wormhole.{open_wormhole}
use neutun.Client.Main.{Surroundings, Cli, tunnel, saved, add, restore, handle_saves_action}
use neutun.Client.Main.Restoring.{handle_saves_action-restore}
use neutun.Examples.{ascii}
use neutun.Examples.Saved.{daemon, saved_json}
use neutun.Examples.Settings.{no_files, no_opts, resolve, restored}
use neutun.Examples.Clientside.{keyless}

abbrev around : Surroundings
around = record {
  codecs = plain_codecs;
  unicode = ascii;
  json = saved_json;
  resolve = resolve;
  fetch = λ _. none;
  is_pid_alive = λ _. true;
  random = codes "r";
  pid = some 65;
  now = codes "now";
  args = codes "-D" ∷ codes "-p" ∷ codes "3000" ∷ [];
}

-- A parser that reads the flag alone.
abbrev parse : List Text → Cli
parse args = record {
  print_version = false;
  command = none;
  opts = record no_opts { port = some 3000; sub_domain = some (codes "app") };
  daemon = contains args (codes "--daemon") || contains args (codes "-D");
}

abbrev child : List Text
child = codes "-p" ∷ codes "3000" ∷ []

web_law :
    ReadsBack saved_json.session_from_str saved_json.session_to_string
      (record (last_session keyless) { name = codes "web" })
unfolding from_utf8 last_session
web_law = refl

last_law : ReadsBack saved_json.session_from_str saved_json.session_to_string (last_session keyless)
unfolding from_utf8 last_session
last_law = refl

abbrev kept : Files
kept = record no_files {
  settings = (codes "last_session.json", codes "last") ∷ [];
  saves = (codes "web.json", codes "web") ∷ [];
}

adds :
    handle_saves_action around
      (add (codes "web"))
      no_opts
      (open_wormhole saved_json keyless 0 none (ok (codes "app", codes "app.t.io")) no_files).1
    ≡ (saved, kept)
unfolding handle_saves_action open_wormhole save_last_session load_last_session saves_add
    save_session Table.insert Table.get Text-discrete from_utf8 last_session
adds = refl

restores :
    (handle_saves_action around (restore (codes "web") false) no_opts kept).0 ≡ tunnel restored
unfolding handle_saves_action load_session from_opts_and_session load_config Table.get Text-discrete
    show show_onto generate_client_id from_utf8
restores = refl

handle_saves_action-restore_example :
    (restored.local_port ≡ 3000)
    × (restored.sub_domain ≡ some (codes "app"))
    × (restored.control_tls_off ≡ false)
    × (restored.control_url ≡ control_url_of false (codes "wormhole.neutun.dev") 0)
unfolding load_config Table.get Text-discrete
handle_saves_action-restore_example =
    handle_saves_action-restore around no_opts keyless (codes "web") 0 none (codes "app")
      (codes "app.t.io") no_files kept restored last_law web_law refl refl adds restores
