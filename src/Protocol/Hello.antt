-- ===== src/Protocol/Hello.antt =====
-- The first messages of a connection, `ClientHello` and `ServerHello`, and the ids and keys in them.
use neutun.Base.{Text, Bool, Option, none, some, codes, ◌++◌, map, take}
use neutun.Codecs.{Codecs}
use neutun.Str.{ascii_lowercase}
use neutun.Protocol.{ClientId, ReconnectToken, StreamId}

-- `SecretKey(String)`
abbrev pub SecretKey : Type 0
SecretKey = Text

-- The random numbers that `rand` gives are arguments: here, alphanumeric samples.
unfoldable pub generate_key : Text → SecretKey
generate_key samples = take 22 samples

unfoldable pub key_client_id : Codecs → SecretKey → ClientId
key_client_id k key = k.base64_encode (k.sha256 key)

pub data ServerHello : Type 0 where
  success : Text → Text → ClientId → ServerHello  -- sub_domain, hostname, client_id
  sub_domain_in_use invalid_sub_domain auth_failed : ServerHello
  error : Text → ServerHello

-- The samples are ASCII, so `to_lowercase` goes byte by byte.
unfoldable pub random_domain : Text → Text
random_domain samples = map ascii_lowercase (take 8 samples)

unfoldable pub prefixed_random_domain : Text → Text → Text
unfolding random_domain
prefixed_random_domain prefix samples = prefix ++ codes "-" ++ random_domain samples

pub data ClientType : Type 0 where
  auth : SecretKey → ClientType
  anonymous : ClientType

pub record ClientHello : Type 0 where
  pub id : ClientId  -- deprecated, not read by the server
  pub sub_domain : Option Text
  pub domain : Option Text
  pub client_type : ClientType
  pub reconnect_token : Option ReconnectToken
  pub wildcard : Bool

-- `ClientId::generate` from 32 random bytes.
unfoldable pub generate_client_id : Codecs → Text → ClientId
generate_client_id k bytes = k.base64_url_encode bytes

unfoldable pub safe_id : Codecs → ClientId → ClientId
safe_id k id = k.base64_encode (k.sha256 id)

unfoldable pub stream_id_to_string : Codecs → StreamId → Text
stream_id_to_string k sid = codes "stream_" ++ k.base64_url_encode sid

module _ (k : Codecs) (random : Text) where
  unfoldable pub generate : Option Text → Option Text → ClientType → Bool → ClientHello
  unfolding generate_client_id
  generate sub_domain domain typ wildcard = record {
    id = generate_client_id k random;
    client_type = typ;
    sub_domain = sub_domain;
    domain = domain;
    reconnect_token = none;
    wildcard = wildcard;
  }

  unfoldable pub reconnect : ReconnectToken → Bool → ClientHello
  unfolding generate_client_id
  reconnect token wildcard = record {
    id = generate_client_id k random;
    sub_domain = none;
    domain = none;
    client_type = anonymous;
    reconnect_token = some token;
    wildcard = wildcard;
  }
