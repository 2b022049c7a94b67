-- ===== src/Examples/Saved.antt =====
-- Files of the client for tests: a configuration is written as numbers, each as a row of letters.
use neutun.Base.{
  ℕ, zero, suc, ◌+◌, ◌<◌, Text, eqb, if◌then◌else◌, ◌≡◌, refl, ap, ◌∙◌, Bool, true, false, Option,
  none, some, codes, List, [], ◌∷◌, ◌++◌, length, take, drop, take-append, drop-append, arith, All,
}
use neutun.Utf8.Ascii.{from_utf8-ascii}
use neutun.Client.Saved.{NeutunConfig, SessionConfig, DaemonEntry, SavedJson, ReadsBack, parse_text}

pub tally : ℕ → Text → Text
tally zero t = b'b' ∷ t
tally (suc n) t = b'a' ∷ tally n t

abbrev pub unary : List ℕ → Text
unary [] = []
unary (n ∷ ns) = tally n (unary ns)

pub read_unary : ℕ → Text → List ℕ
read_unary n [] = []
read_unary n (c ∷ t) =
    let next = read_unary 0 t in
    let more = read_unary (n + 1) t in if eqb c b'b' then n ∷ next else more

read_unary-tally : (n m : ℕ) (t : Text) → read_unary m (tally n t) ≡ (m + n) ∷ read_unary 0 t
unfolding tally read_unary
read_unary-tally zero m t = ap (λ k. k ∷ read_unary 0 t) (omega arith)
read_unary-tally (suc n) m t =
    read_unary-tally n (m + 1) t ∙ ap (λ k. k ∷ read_unary 0 t) (omega arith)

read_unary-unary : (ns : List ℕ) → read_unary 0 (unary ns) ≡ ns
unfolding read_unary
read_unary-unary [] = refl
read_unary-unary (n ∷ ns) =
    read_unary-tally n 0 (unary ns)
    ∙ ap (λ k. k ∷ read_unary 0 (unary ns)) (omega arith)
    ∙ ap (λ ms. n ∷ ms) (read_unary-unary ns)

tally-ascii : (n : ℕ) (t : Text) → All (λ b. b < 0x80) t → All (λ b. b < 0x80) (tally n t)
unfolding tally
tally-ascii zero t h = (omega arith, h)
tally-ascii (suc n) t h = (omega arith, tally-ascii n t h)

unary-ascii : (ns : List ℕ) → All (λ b. b < 0x80) (unary ns)
unary-ascii [] = tt
unary-ascii (n ∷ ns) = tally-ascii n (unary ns) (unary-ascii ns)

abbrev pub bit : Bool → ℕ
bit true = 1
bit false = 0

abbrev pub put_text : Text → List ℕ → List ℕ
put_text t rest = length t ∷ t ++ rest

abbrev pub put_option : Option Text → List ℕ → List ℕ
put_option none rest = 0 ∷ rest
put_option (some t) rest = 1 ∷ put_text t rest

abbrev pub put_config : NeutunConfig → List ℕ
put_config c =
    c.ctrl_port
    ∷ bit c.tls
    ∷ c.port
    ∷ put_text c.host (put_option c.ctrl_host (put_option c.key []))

abbrev pub read_text : List ℕ → Text × List ℕ
read_text [] = ([], [])
read_text (n ∷ t) = (take n t, drop n t)

abbrev pub read_option : List ℕ → Option Text × List ℕ
read_option [] = (none, [])
read_option (zero ∷ t) = (none, t)
read_option (suc _ ∷ t) = let (a, rest) = read_text t in (some a, rest)

abbrev pub read_config : List ℕ → Option NeutunConfig
read_config (ctrl_port ∷ tls ∷ port ∷ t) =
    let (host, t1) = read_text t in
    let (ctrl_host, t2) = read_option t1 in
    let (key, _) = read_option t2 in
    some (record {
      host = host;
      ctrl_host = ctrl_host;
      ctrl_port = ctrl_port;
      tls = eqb tls 1;
      port = port;
      key = key;
    })
read_config _ = none

read_text-put_text : (t : Text) (rest : List ℕ) → read_text (put_text t rest) ≡ (t, rest)
read_text-put_text t rest =
    ground (arith, take-append (length t) t rest refl, drop-append (length t) t rest refl)

read_option-put_option :
    (o : Option Text) (rest : List ℕ) → read_option (put_option o rest) ≡ (o, rest)
read_option-put_option none rest = refl
read_option-put_option (some t) rest = ground (arith, read_text-put_text t rest)

eqb-bit : (b : Bool) → eqb (bit b) 1 ≡ b
eqb-bit true = refl
eqb-bit false = refl

read_config-put_config : (c : NeutunConfig) → read_config (put_config c) ≡ some c
read_config-put_config c =
    let rest = put_option c.ctrl_host (put_option c.key []) in
    rw
      (
        take-append (length c.host) c.host rest refl,
        drop-append (length c.host) c.host rest refl,
        read_option-put_option c.ctrl_host (put_option c.key []),
        read_option-put_option c.key [],
      )
      (ap (λ b. some (record c { tls = b })) (eqb-bit c.tls))

abbrev pub session : SessionConfig
session = record {
  name = codes "web";
  port = 3000;
  subdomain = some (codes "app");
  domain = codes "t.io";
  key = none;
  use_tls = false;
  wildcard = false;
  local_host = codes "localhost";
  ctrl_host = none;
  ctrl_port = 0;
  tls = true;
  dashboard_port = none;
}

abbrev pub daemon : DaemonEntry
daemon = record { pid = 65; port = 3000; subdomain = some (codes "app"); started_at = codes "now" }

-- Sessions are written by name, and daemons by process.
abbrev pub read_daemon : Text → Option DaemonEntry
read_daemon [] = none
read_daemon (pid ∷ _) = some (record daemon { pid = pid })

abbrev pub saved_json : SavedJson
saved_json = record {
  config_to_string = λ c. unary (put_config c);
  config_from_str = λ t. read_config (read_unary 0 t);
  session_to_string = λ s. s.name;
  session_from_str = λ t. some (record session { name = t });
  daemon_to_string = λ d. d.pid ∷ [];
  daemon_from_str = read_daemon;
}

pub saved_json-ReadsBack :
    (c : NeutunConfig) → ReadsBack saved_json.config_from_str saved_json.config_to_string c
saved_json-ReadsBack c =
    ap (parse_text saved_json.config_from_str)
      (from_utf8-ascii (unary (put_config c)) (unary-ascii (put_config c)))
    ∙ ap read_config (read_unary-unary (put_config c))
    ∙ read_config-put_config c
