-- ===== src/Client/Config.antt =====
-- `Config` of neutun/src/config.rs, as far as a tunnel uses it, and neutun/src/error.rs.
use neutun.Base.{ℕ, Text, Bool, Option}
use neutun.Protocol.{ClientId}
use neutun.Protocol.Hello.{SecretKey}

pub record Config : Type 0 where
  pub client_id : ClientId
  pub control_url : Text
  pub control_api_url : Text
  pub use_tls : Bool
  pub host : Text
  pub local_host : Text
  pub local_port : ℕ
  pub local_addr : Text  -- the resolved address
  pub sub_domain : Option Text
  pub domain : Option Text
  pub secret_key : Option SecretKey
  pub control_tls_off : Bool
  pub first_run : Bool
  pub dashboard_port : ℕ
  pub verbose : Bool
  pub wildcard : Bool

-- `Error`; the errors of the websocket come from another crate.
pub data Error : Type 0 where
  web_socket_error authentication_failed malformed_message_from_server invalid_sub_domain
        sub_domain_in_use server_reply_invalid no_response_from_server timeout :
      Error
  server_error : Text → Error
