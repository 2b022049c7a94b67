-- ===== src/Control/Open/Exclusive.antt =====
-- Hosts are handed out once.
use neutun.Base.{Text, ◌==◌, if◌then◌else◌, ◌≡◌, some}
use neutun.Channel.{Sender, put, unbounded}
use neutun.Server.{full_host, Server}
use neutun.Server.Connections.{find_by_host, get}
use neutun.Server.Connections.Lookup.{lookup-add}
use neutun.Auth.Handshake.{ClientHandshake}
use neutun.Control.Open.{new_client, register}

pub lookup-register :
    (h : ClientHandshake) (tx : Sender) (s : Server) (id host : Text)
    → (get id (register h tx s) ≡ (if h.id == id then some (new_client h tx) else get id s))
      × (find_by_host host (register h tx s) ≡ (
          if full_host (new_client h tx) == host
          then some (new_client h tx)
          else find_by_host host s))
unfolding register find_by_host get
lookup-register h tx s id host =
    lookup-add (new_client h tx) (record s { controls = put tx unbounded s.controls }) id host
