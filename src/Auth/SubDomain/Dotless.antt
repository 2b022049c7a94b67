-- ===== src/Auth/SubDomain/Dotless.antt =====
-- An accepted sub-domain has no dot, so it is never itself the name of a host.
use neutun.Base.{ℕ, ◌<◌, Text, ◌≡◌, ◌≢◌, Bool, List, [], ◌∷◌, arith, All, ok}
use neutun.Utf8.{chars}
use neutun.Utf8.Ascii.{chars-ascii}
use neutun.Str.{Unicode, is_alphanumeric}
use neutun.Protocol.{ClientId}
use neutun.Server.{Server}
use neutun.Server.Config.{Config}
use neutun.Auth.SubDomain.{count_disallowed, sanitize_sub_domain_and_pre_validate}
use neutun.Auth.SubDomain.Free.{sanitize-IsFree}

-- No byte of the text is a dot.
abbrev pub NoDot : Text → Type 0
NoDot t = All (λ b. b ≢ b'.') t

module _ (u : Unicode) where
  dotless_chars : (cs : List ℕ) → count_disallowed u cs ≡ 0 → All (λ c. c ≢ b'.') cs
  unfolding is_alphanumeric
  dotless_chars [] e = tt
  dotless_chars (c ∷ cs) e = (ground arith, dotless_chars cs (ground arith))

  dotless_bytes : (t : Text) → All (λ b. b < 0x80 → b ≢ b'.') t → NoDot t
  dotless_bytes [] h = tt
  dotless_bytes (b ∷ t) h = (λ e. h.0 (omega arith) e, dotless_bytes t h.1)

  pub sanitize-NoDot :
      (config : Config) (requested sub domain : Text) (id : ClientId) (wildcard : Bool) (s : Server)
      → sanitize_sub_domain_and_pre_validate config u requested domain id wildcard s ≡ ok sub
      → NoDot sub
  sanitize-NoDot config requested sub domain id wildcard s e =
      let free = (sanitize-IsFree config u requested sub domain id wildcard s).0 e in
      dotless_bytes sub
        (chars-ascii (λ c. c ≢ b'.') sub (dotless_chars (chars sub) free.characters))
