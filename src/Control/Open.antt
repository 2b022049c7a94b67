-- ===== src/Control/Open.antt =====
-- `try_client_handshake` and `handle_new_connection` up to the spawning of the client's tasks.
pub mod Opened
pub mod Exclusive
pub mod Takeover
use neutun.Base.{
  Text, if◌then◌else◌, Bool, true, false, ◌||◌, eqb, Option, none, some, String, codes, List, [],
  ◌∷◌, ◌++◌, ok, err, Result,
}
use neutun.Channel.{Sender, unbounded, put}
use neutun.Protocol.Hello.{ServerHello, success}
use neutun.Server.{ConnectedClient, Server}
use neutun.Server.Config.{IpAddr, v4, v6}
use neutun.Server.Connections.{add}
use neutun.Auth.Handshake.{Env, Moment, ClientHandshake, auth_client_handshake}

abbrev same_ip : IpAddr → IpAddr → Bool
same_ip (v4 a) (v4 b) = eqb a b
same_ip (v6 a) (v6 b) = eqb a b
same_ip _ _ = false

abbrev pub is_blocked : List IpAddr → IpAddr → Bool
is_blocked [] ip = false
is_blocked (x ∷ xs) ip = same_ip x ip || is_blocked xs ip

abbrev pub hostname_of : ClientHandshake → Text
hostname_of h = if h.wildcard then codes "*." ++ h.domain else h.sub_domain ++ codes "." ++ h.domain

-- The reply on the socket, if any, and the handshake, if it goes on. `delivered` says whether the
-- socket takes the success message.
finish_handshake :
    Bool → Result ClientHandshake (Option ServerHello) → Option ServerHello × Option ClientHandshake
finish_handshake delivered (err reply) = (reply, none)
finish_handshake delivered (ok h) =
    (some (success h.sub_domain (hostname_of h) h.id), if delivered then some h else none)

abbrev pub new_client : ClientHandshake → Sender → ConnectedClient
new_client h tx = record {
  id = h.id;
  host = h.sub_domain;
  domain = h.domain;
  is_anonymous = h.is_anonymous;
  wildcard = h.wildcard;
  tx = tx;
}

-- A new channel at the place `tx`, and the client in both tables.
unfoldable pub register : ClientHandshake → Sender → Server → Server
register h tx s = add (new_client h tx) (record s { controls = put tx unbounded s.controls })

open_with :
    Sender
    → Server
    → Option ServerHello × Option ClientHandshake
    → Option ServerHello × Option ConnectedClient × Server
open_with tx s (reply, none) = (reply, none, s)
open_with tx s (reply, some h) = (reply, some (new_client h tx), register h tx s)

module _ (env : Env) (m : Moment) where
  unfoldable pub try_client_handshake :
      Option Text → Bool → Server → Option ServerHello × Option ClientHandshake
  unfolding finish_handshake
  try_client_handshake message delivered s =
      finish_handshake delivered (auth_client_handshake env m message s)

  -- The reply, the client if a tunnel is open, and the state.
  unfoldable pub handle_new_connection :
      IpAddr
      → Option Text
      → Bool
      → Sender
      → Server
      → Option ServerHello × Option ConnectedClient × Server
  unfolding open_with try_client_handshake
  handle_new_connection ip message delivered tx s =
      if is_blocked env.config.blocked_ips ip
      then (none, none, s)
      else open_with tx s (try_client_handshake message delivered s)
