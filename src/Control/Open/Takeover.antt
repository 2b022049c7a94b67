-- ===== src/Control/Open/Takeover.antt =====
-- A reconnect token against the client that has its host.
use neutun.Base.{Text, true, false}
use neutun.Server.{Server}
use neutun.Auth.Token.{ReconnectTokenPayload}
use neutun.Auth.Handshake.{ClientHandshake}

abbrev pub token_handshake : ReconnectTokenPayload → Text → ClientHandshake
token_handshake p domain = record {
  id = p.client_id;
  sub_domain = p.sub_domain;
  domain = domain;
  is_anonymous = true;
  wildcard = false;
}
