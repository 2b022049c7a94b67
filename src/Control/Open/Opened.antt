-- ===== src/Control/Open/Opened.antt =====
-- What an open tunnel implies, and what a failed connection leaves.
use neutun.Base.{
  Text, ◌≡◌, refl, Bool, true, false, Option, none, some, ok, arith, Option-cases, Result-cases, inl, inr,
}
use neutun.Channel.{Sender}
use neutun.Protocol.Hello.{ServerHello, success, ClientHello}
use neutun.Server.{ConnectedClient, Server}
use neutun.Server.Config.{IpAddr}
use neutun.Auth.Handshake.{
  Env, Moment, ClientHandshake, auth_client_handshake, auth_client, auth_hello,
}
use neutun.Control.Open.{is_blocked, hostname_of, new_client, register, handle_new_connection}

module _ (env : Env) (m : Moment) where
  pub record IsOpened (ip : IpAddr) (message : Option Text) (delivered : Bool) (tx : Sender)
      (s : Server) (reply : Option ServerHello) (c : ConnectedClient) (s' : Server) : Type 0 where
    pub handshake : ClientHandshake
    pub hello : ClientHello
    pub bytes : Text
    pub unblocked : is_blocked env.config.blocked_ips ip ≡ false
    pub received : message ≡ some bytes
    pub parsed : env.hello_from_slice bytes ≡ some hello
    pub granted : auth_hello env m hello s ≡ ok handshake
    pub heard : delivered ≡ true
    pub greeting : reply ≡ some (success handshake.sub_domain (hostname_of handshake) handshake.id)
    pub client : c ≡ new_client handshake tx
    pub registered : s' ≡ register handshake tx s

  -- A tunnel is open only for an address that is not blocked, after a hello that parses and is
  -- granted, and after the socket took the greeting of that grant; and the state is the old one with
  -- the client registered.
  pub handle_new_connection-IsOpened :
      (ip : IpAddr) (message : Option Text) (delivered : Bool) (tx : Sender) (s : Server)
      (reply : Option ServerHello) (c : ConnectedClient) (s' : Server)
      → handle_new_connection env m ip message delivered tx s ≡ (reply, some c, s')
      → IsOpened ip message delivered tx s reply c s'
  unfolding handle_new_connection auth_client_handshake auth_client
  handle_new_connection-IsOpened ip none delivered tx s reply c s' e = absurd (ground arith)
  handle_new_connection-IsOpened ip (some bytes) delivered tx s reply c s' e =
      elim (Option-cases (env.hello_from_slice bytes)) [
        | inl f ↦ absurd (ground arith)
        | inr (hello, f) ↦ elim (Result-cases (auth_hello env m hello s)) [
          | inr (_, g) ↦ absurd (ground arith)
          | inl (h, g) ↦ record {
            handshake = h;
            hello = hello;
            bytes = bytes;
            unblocked = ground arith;
            received = refl;
            parsed = f;
            granted = g;
            heard = ground arith;
            greeting = ground arith;
            client = ground arith;
            registered = ground arith;
          }
        ]
      ]

  -- A connection that opens no tunnel leaves the state as it was.
  pub handle_new_connection-failed :
      (ip : IpAddr) (message : Option Text) (delivered : Bool) (tx : Sender) (s : Server)
      (reply : Option ServerHello) (s' : Server)
      → handle_new_connection env m ip message delivered tx s ≡ (reply, none, s')
      → s' ≡ s
  unfolding handle_new_connection
  handle_new_connection-failed ip message delivered tx s reply s' e = ground arith
