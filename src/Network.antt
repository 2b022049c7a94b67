-- ===== src/Network.antt =====
-- neutun_server/src/network: which instance serves a host. The lookup among instances is disabled.
use neutun.Base.{ℕ, Text, eqb, if◌then◌else◌, Option, none, some, List, [], Result, ok, err}
use neutun.Protocol.{ClientId}
use neutun.Server.{Server}
use neutun.Server.Config.{IpAddr}
use neutun.Server.Connections.{client_for_host}

-- Errors of I/O, of a request and of a resolver come from other crates.
pub data NetworkError : Type 0 where
  io_error request resolver does_not_serve_host : NetworkError

pub record Instance : Type 0 where
  pub ip : IpAddr

unfoldable pub get_instances : Result (List Instance) NetworkError
get_instances = ok []

abbrev pub HostQuery : Type 0
HostQuery = Text

abbrev pub HostQueryResponse : Type 0
HostQueryResponse = Option ClientId

unfoldable pub handle_query : HostQuery → Server → HostQueryResponse
unfolding client_for_host
handle_query host s = client_for_host host s

-- The status and the body of an instance's answer; the request may fail.
unfoldable pub serves_host :
    Instance
    → Result (ℕ × HostQueryResponse) NetworkError
    → Result (Instance × ClientId) NetworkError
serves_host self (err e) = err e
serves_host self (ok (status, none)) = err does_not_serve_host
serves_host self (ok (status, some id)) =
    if eqb status 200 then ok (self, id) else err does_not_serve_host

unfoldable pub instance_for_host : Text → Result (Instance × ClientId) NetworkError
instance_for_host host = err does_not_serve_host
