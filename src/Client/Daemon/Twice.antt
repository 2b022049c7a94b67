-- ===== src/Client/Daemon/Twice.antt =====
-- No second daemon for the same port and sub-domain.
use neutun.Base.{
  ℕ, Text, eqb, if◌then◌else◌, ◌≡◌, ◌<◌, Bool, true, false, ◌&&◌, ◌||◌, Option, codes, List, [],
  ◌∷◌, length, length-append, arith,
}
use neutun.Table
use neutun.Table.{Table}
use neutun.Str.Affix.{ends_with-append}
use neutun.Str.Numbers.{show, StartsWithDigit, show-StartsWithDigit}
use neutun.Client.Saved.{DaemonEntry, SavedJson, json_file, is_json, same_subdomain}

any : {A : Type 0} → (A → Bool) → List A → Bool
any p [] = false
any p (a ∷ rest) = p a || any p rest

starts_long : (t : Text) → StartsWithDigit t → 0 < length t
starts_long [] h = absurd h
starts_long (c ∷ t) h = omega arith

-- The file of a daemon is one that the list of daemons reads.
pub is_json-json_file : (pid : ℕ) → is_json (json_file (show pid)) ≡ true
is_json-json_file pid = ground (
  arith,
  ends_with-append (show pid) (codes ".json"),
  length-append (show pid) (codes ".json"),
  starts_long (show pid) (show-StartsWithDigit pid),
)

module _ (j : SavedJson) (is_pid_alive : ℕ → Bool) (port : ℕ) (subdomain : Option Text) where
  same : DaemonEntry → Bool
  same d = eqb d.port port && same_subdomain d.subdomain subdomain

  live_same : DaemonEntry → Bool
  live_same d = is_pid_alive d.pid && same d

  abbrev pub entry_of : ℕ → Text → DaemonEntry
  entry_of pid now = record { pid = pid; port = port; subdomain = subdomain; started_at = now }
