-- ===== src/Codecs.antt =====
-- What the program takes from the crates base64, sha2, hmac_sha256 and hex.
use neutun.Base.{Text, Option, some, ◌≡◌, refl, ◌++◌}

pub record Codecs : Type 0 where
  pub base64_encode : Text → Text
  pub base64_decode : Text → Option Text
  pub base64_url_encode : Text → Text  -- `URL_SAFE_NO_PAD`
  pub sha256 : Text → Text
  pub hmac : Text → Text → Text  -- of the message, by the key
  pub hex_encode : Text → Text
  pub hex_decode : Text → Option Text

-- Decoding undoes encoding.
pub record CodecLaws (k : Codecs) : Type 0 where
  pub base64_law : (t : Text) → k.base64_decode (k.base64_encode t) ≡ some t
  pub hex_law : (t : Text) → k.hex_decode (k.hex_encode t) ≡ some t

-- An instance for tests: texts stand for themselves.
abbrev pub plain_codecs : Codecs
plain_codecs = record {
  base64_encode = λ t. t;
  base64_decode = λ t. some t;
  base64_url_encode = λ t. t;
  sha256 = λ t. t;
  hmac = λ m k. k ++ m;
  hex_encode = λ t. t;
  hex_decode = λ t. some t;
}

pub plain_codecs-CodecLaws : CodecLaws plain_codecs
plain_codecs-CodecLaws = record { base64_law = λ t. refl; hex_law = λ t. refl }
