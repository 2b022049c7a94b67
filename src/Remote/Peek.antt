-- ===== src/Remote/Peek.antt =====
-- `peek_http_request_host`: the host of an HTTP request that is only looked at.
use neutun.Base.{
  Text, ◌==◌, eqb, if◌then◌else◌, Bool, false, Option, none, some, codes, List, [], ◌∷◌, length,
}
use neutun.Str.{Unicode, to_lowercase}
use neutun.Utf8.{from_utf8}
use neutun.Server.Config.{unwrap_or}

-- What `httparse` finds in the bytes: the path, and the headers in order.
pub record Request : Type 0 where
  pub path : Option Text
  pub headers : List (Text × Text)

-- A request that goes on, one that was a health check and is answered, and one that is dropped.
pub data Peeked : Type 0 where
  with_host : Text → Text → Peeked  -- host, forwarded_for
  healthy dropped : Peeked

abbrev health_check_path : Text
health_check_path = codes "/0xDEADBEEF_HEALTH_CHECK"

module _ (u : Unicode) (parse : Text → Option Request) where
  -- The value of the first header of that name.
  unfoldable pub first_header : Text → List (Text × Text) → Option Text
  first_header name [] = none
  first_header name ((h, value) ∷ rest) =
      if to_lowercase u h == name then some value else first_header name rest

  abbrev utf8_header : Text → List (Text × Text) → Option Text
  utf8_header name headers = elim (first_header name headers) [
    | none ↦ none
    | some value ↦ from_utf8 value
  ]

  abbrev is_health_check : Option Text → Bool
  is_health_check none = false
  is_health_check (some path) = path == health_check_path

  host_or_drop : Option Text → Text → Peeked
  host_or_drop none forwarded_for = dropped
  host_or_drop (some host) forwarded_for = with_host host forwarded_for

  peek_request : Option Request → Peeked
  unfolding host_or_drop first_header from_utf8
  peek_request none = dropped
  peek_request (some req) =
      if is_health_check req.path
      then healthy
      else (let forwarded_for = unwrap_or (utf8_header (codes "x-forwarded-for") req.headers) [] in
          host_or_drop (utf8_header (codes "host") req.headers) forwarded_for)

  -- The peeked bytes, at most 4096; `none` if the socket fails.
  unfoldable pub peek_http_request_host : Option Text → Peeked
  unfolding peek_request
  peek_http_request_host none = dropped
  peek_http_request_host (some bytes) =
      if eqb (length bytes) 0 then dropped else peek_request (parse bytes)
