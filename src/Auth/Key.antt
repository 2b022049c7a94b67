-- ===== src/Auth/Key.antt =====
-- `SigKey` of neutun_server/src/auth/mod.rs.
use neutun.Base.{
  Text, ◌==◌, eqb, if◌then◌else◌, ◌≡◌, ◌↔◌, Bool, true, false, Option, none, some, length, arith,
}
use neutun.Codecs.{Codecs, CodecLaws}

-- `[u8; 32]`
abbrev pub SigKey : Type 0
SigKey = Text

-- The hex digits of a mac.
abbrev pub Signature : Type 0
Signature = Text

as_key : Option Text → Option SigKey
as_key none = none
as_key (some bytes) = if eqb (length bytes) 32 then some bytes else none

module _ (k : Codecs) where
  unfoldable pub from_hex : Text → Option SigKey
  unfolding as_key
  from_hex hex = as_key (k.hex_decode hex)

  unfoldable pub sign : SigKey → Text → Signature
  sign key message = k.hex_encode (k.hmac message key)

  unfoldable pub verify_signature : SigKey → Text → Signature → Bool
  verify_signature key message signature = elim (k.hex_decode signature) [
    | none ↦ false
    | some s ↦ let expected = k.hmac message key in s == expected
  ]

  -- A signature is accepted exactly if it is the hex form of the message's mac under the key.
  pub verify_signature_lem :
      (key message : Text) (signature : Signature)
      → (verify_signature key message signature ≡ true)
        ↔ (k.hex_decode signature ≡ some (k.hmac message key))
  unfolding verify_signature
  verify_signature_lem key message signature = (λ e. ground arith, λ e. ground arith)

  pub verify_signature-sign :
      (laws : CodecLaws k) (key message : Text)
      → verify_signature key message (sign key message) ≡ true
  unfolding sign
  verify_signature-sign laws key message =
      (verify_signature_lem key message (sign key message)).1 (laws.hex_law (k.hmac message key))
