-- ===== src/Examples.antt =====
-- A server for tests: one domain, a key, two clients and a stream, and what stands for other crates.
pub mod Wire
pub mod Clients
pub mod Access
pub mod Tunnels
pub mod Users
pub mod Whole
pub mod Saved
pub mod Clientside
pub mod Settings
pub mod Dashboard
pub mod Daemons
pub mod Programs
pub mod Mixture
use neutun.Base.{
  ℕ, ◌+◌, ◌≡◌, ◌∙◌, ap, refl, Text, ◌==◌, if◌then◌else◌, Bool, true, false, Option, none, some,
  String, codes, List, [], ◌∷◌, ◌++◌, length, take, drop, take-append, drop-append, map, arith,
}
use mathlib.Core.Path.{ap₂}
use neutun.Codecs.{Codecs, plain_codecs}
use neutun.Str.{Unicode}
use neutun.Channel.{unbounded, dropped}
use neutun.Protocol.{StreamId}
use neutun.Protocol.Hello.{ClientHello, auth}
use neutun.Server.{ConnectedClient, ActiveStream, Server}
use neutun.Server.Config.{Config, v4}
use neutun.Server.Connections.{add}
use neutun.Auth.Token.{ReconnectTokenPayload, ReconnectTokenInner, TokenJson}
use neutun.Auth.Token.Laws.{JsonLaws}
use neutun.Auth.Handshake.{Env, Moment}

abbrev pub config : Config
config = record {
  allowed_hosts = codes "t.io" ∷ [];
  blocked_sub_domains = codes "admin" ∷ [];
  remote_port = 8080;
  control_port = 5000;
  internal_network_port = 6000;
  master_sig_key = codes "sig";
  blocked_ips = v4 9 ∷ [];
  master_key = some (codes "key");
}

-- Nothing but ASCII has letters.
abbrev pub ascii : Unicode
ascii = record { lowercase = λ t. t; uppercase = λ t. t; alphanumeric = λ _. false }

-- A payload as its numbers, with the length of the sub-domain.
abbrev read_payload : Text → Option ReconnectTokenPayload
read_payload (e ∷ n ∷ t) =
    some (record { sub_domain = take n t; client_id = drop n t; expires = e })
read_payload _ = none

abbrev read_inner : Text → Option ReconnectTokenInner
read_inner (n ∷ t) = some (record { signed = take n t; sig = drop n t })
read_inner [] = none

abbrev pub json : TokenJson
json = record {
  payload_to_string = λ p. some (p.expires ∷ length p.sub_domain ∷ p.sub_domain ++ p.client_id);
  payload_from_str = read_payload;
  inner_to_vec = λ n. some (length n.signed ∷ n.signed ++ n.sig);
  inner_from_slice = read_inner;
}

pub json-JsonLaws : JsonLaws json
json-JsonLaws = record {
  payload_law = λ p t e. ground (
    arith,
    take-append (length p.sub_domain) p.sub_domain p.client_id,
    drop-append (length p.sub_domain) p.sub_domain p.client_id,
  );
  inner_law = λ n t e. ground (
    arith,
    take-append (length n.signed) n.signed n.sig,
    drop-append (length n.signed) n.signed n.sig,
  );
}

abbrev pub payload : ReconnectTokenPayload
payload = record { sub_domain = codes "app"; client_id = codes "id0"; expires = 10 }

-- The hellos, by their bytes: a client with a key that asks for `app`, and one with a token.
abbrev pub key_hello : ClientHello
key_hello = record {
  id = [];
  sub_domain = some (codes "App");
  domain = none;
  client_type = auth (codes "key");
  reconnect_token = none;
  wildcard = false;
}

abbrev pub token_hello : Text → ClientHello
token_hello token = record {
  id = [];
  sub_domain = none;
  domain = none;
  client_type = auth (codes "other");
  reconnect_token = some token;
  wildcard = false;
}

abbrev read_hello : Text → Option ClientHello
read_hello [] = some key_hello
read_hello token = some (token_hello token)

abbrev pub env : Env
env = record {
  config = config;
  unicode = ascii;
  codecs = plain_codecs;
  token_json = json;
  hello_from_slice = read_hello;
}

abbrev pub moment : Moment
moment = record { now = 5; client_bytes = codes "id1"; samples = codes "Qwertyui" }

abbrev pub old_client : ConnectedClient
old_client = record {
  id = codes "id0";
  host = codes "app";
  domain = codes "t.io";
  is_anonymous = true;
  wildcard = false;
  tx = 0;
}

-- Another connection of the same client.
abbrev pub new_client : ConnectedClient
new_client = record old_client { tx = 1 }

abbrev pub wild_client : ConnectedClient
wild_client = record {
  id = codes "id2";
  host = codes "any";
  domain = codes "t.io";
  is_anonymous = false;
  wildcard = true;
  tx = 2;
}

abbrev pub stream_id : StreamId
stream_id = 1 ∷ 2 ∷ 3 ∷ 4 ∷ 5 ∷ 6 ∷ 7 ∷ 8 ∷ []

abbrev pub stream : ActiveStream
stream = record { id = stream_id; client = old_client; tx = 7 }

-- Two clients with open channels, and an active stream.
abbrev pub server : Server
server = record {
  clients = (codes "id2", wild_client) ∷ (codes "id0", old_client) ∷ [];
  hosts = (codes "any.t.io", wild_client) ∷ (codes "app.t.io", old_client) ∷ [];
  active_streams = (stream_id, stream) ∷ [];
  controls = λ _. unbounded;
  pipes = λ _. unbounded;
}
