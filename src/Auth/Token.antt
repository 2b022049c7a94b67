-- ===== src/Auth/Token.antt =====
-- `ReconnectTokenPayload` of neutun_server/src/auth/reconnect_token.rs.
pub mod Laws
use neutun.Base.{
  ℕ, Text, ltb, if◌then◌else◌, Bool, true, false, Option, none, some, Result, ok, err, ◌>>=◌,
}
use neutun.Codecs.{Codecs}
use neutun.Protocol.{ClientId, ReconnectToken}
use neutun.Auth.Key.{SigKey, Signature, sign, verify_signature}

pub data TokenError : Type 0 where
  json base64 invalid_signature expired : TokenError

pub record ReconnectTokenPayload : Type 0 where
  pub sub_domain : Text
  pub client_id : ClientId
  pub expires : ℕ  -- a moment, in any unit

pub record ReconnectTokenInner : Type 0 where
  pub signed : Text  -- the payload
  pub sig : Signature

-- `serde_json` on the two types.
pub record TokenJson : Type 0 where
  pub payload_to_string : ReconnectTokenPayload → Option Text
  pub payload_from_str : Text → Option ReconnectTokenPayload
  pub inner_to_vec : ReconnectTokenInner → Option Text
  pub inner_from_slice : Text → Option ReconnectTokenInner

abbrev pub ok_or : {A E : Type 0} → Option A → E → Result A E
ok_or (some a) e = ok a
ok_or none e = err e

abbrev require : {E : Type 0} → Bool → E → Result (Unit {0}) E
require true e = ok tt
require false e = err e

module _ (k : Codecs) (j : TokenJson) where
  unfoldable pub into_token : ReconnectTokenPayload → SigKey → Result ReconnectToken TokenError
  into_token p key = do
    payload ← ok_or (j.payload_to_string p) json
    let sig = sign k key payload
    tok ← ok_or (j.inner_to_vec (record { signed = payload; sig = sig })) json
    ok (k.base64_encode tok)

  unfoldable pub verify : ReconnectToken → SigKey → ℕ → Result ReconnectTokenPayload TokenError
  verify tok key now = do
    bytes ← ok_or (k.base64_decode tok) base64
    inner ← ok_or (j.inner_from_slice bytes) json
    _ ← require (verify_signature k key inner.signed inner.sig) invalid_signature
    payload ← ok_or (j.payload_from_str inner.signed) json
    if ltb payload.expires now then err expired else ok payload
