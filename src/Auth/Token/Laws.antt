-- ===== src/Auth/Token/Laws.antt =====
-- Tokens that are issued are accepted until they expire, and only signed payloads are accepted.
use neutun.Base.{
  ℕ, Text, ltb, if◌then◌else◌, ◌≡◌, ◌≤◌, some, ok, err, arith, Option-cases, ◌↔◌, inl, inr,
}
use neutun.Codecs.{Codecs, CodecLaws}
use neutun.Protocol.{ReconnectToken}
use neutun.Auth.Key.{SigKey, sign, verify_signature, verify_signature-sign}
use neutun.Auth.Token.{
  expired, ReconnectTokenPayload, ReconnectTokenInner, TokenJson, into_token, verify,
}

-- What serde writes, it reads back.
pub record JsonLaws (j : TokenJson) : Type 0 where
  pub payload_law :
      (p : ReconnectTokenPayload) (t : Text)
      → j.payload_to_string p ≡ some t
      → j.payload_from_str t ≡ some p
  pub inner_law :
      (n : ReconnectTokenInner) (t : Text)
      → j.inner_to_vec n ≡ some t
      → j.inner_from_slice t ≡ some n

-- What a token must be to be accepted with payload `p` at the moment `now`.
pub record IsAccepted (k : Codecs) (j : TokenJson) (tok : ReconnectToken) (key : SigKey) (now : ℕ)
    (p : ReconnectTokenPayload) : Type 0 where
  pub bytes : Text
  pub inner : ReconnectTokenInner
  pub decoded : k.base64_decode tok ≡ some bytes
  pub parsed : j.inner_from_slice bytes ≡ some inner
  pub signature : k.hex_decode inner.sig ≡ some (k.hmac inner.signed key)
  pub payload : j.payload_from_str inner.signed ≡ some p
  pub fresh : now ≤ p.expires

module _ (k : Codecs) (j : TokenJson) where
  -- A token is accepted with a payload exactly when it is the base64 form of a JSON pair of the
  -- payload's JSON and the hex form of that JSON's mac under the key, and the payload has not
  -- expired.
  pub verify-IsAccepted :
      (tok : ReconnectToken) (key : SigKey) (now : ℕ) (p : ReconnectTokenPayload)
      → (verify k j tok key now ≡ ok p) ↔ IsAccepted k j tok key now p
  unfolding verify verify_signature
  verify-IsAccepted tok key now p = (
    λ e. elim (Option-cases (k.base64_decode tok)) [
      | inl f ↦ absurd (ground arith)
      | inr (bytes, f) ↦ elim (Option-cases (j.inner_from_slice bytes)) [
        | inl g ↦ absurd (ground arith)
        | inr (inner, g) ↦ record {
          bytes = bytes;
          inner = inner;
          decoded = f;
          parsed = g;
          signature = ground arith;
          payload = ground arith;
          fresh = ground arith;
        }
      ]
    ],
    λ a. ground (arith, a.decoded, a.parsed, a.signature, a.payload, a.fresh),
  )

module _ {k : Codecs} (laws : CodecLaws k) {j : TokenJson} (reads : JsonLaws j) where
  verify-encoded :
      (p : ReconnectTokenPayload) (key : SigKey) (now : ℕ) (payload bytes : Text)
      → j.payload_to_string p ≡ some payload
      → j.inner_to_vec (record { signed = payload; sig = sign k key payload }) ≡ some bytes
      → verify k j (k.base64_encode bytes) key now
        ≡ (if ltb p.expires now then err expired else ok p)
  unfolding verify
  verify-encoded p key now payload bytes e f = ground (
    arith,
    laws.base64_law bytes,
    reads.payload_law p payload e,
    reads.inner_law (record { signed = payload; sig = sign k key payload }) bytes f,
    verify_signature-sign k laws key payload,
  )

  -- A token that the server issues is accepted under the same key with its own payload, until the
  -- payload's moment of expiry has passed, and is then refused as expired.
  pub verify-into_token :
      (p : ReconnectTokenPayload) (key : SigKey) (now : ℕ) (tok : ReconnectToken)
      → into_token k j p key ≡ ok tok
      → verify k j tok key now ≡ (if ltb p.expires now then err expired else ok p)
  unfolding into_token
  verify-into_token p key now tok e = elim (Option-cases (j.payload_to_string p)) [
    | inl f ↦ absurd (ground arith)
    | inr (payload, f) ↦
        elim (Option-cases
          (j.inner_to_vec (record { signed = payload; sig = sign k key payload }))) [
            | inl g ↦ absurd (ground arith)
            | inr (bytes, g) ↦ ground (arith, verify-encoded p key now payload bytes f g)
          ]
  ]
