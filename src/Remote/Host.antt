-- ===== src/Remote/Host.antt =====
-- `validate_host_prefix`: the sub-domain and the allowed domain of a host.
pub mod Exact
use neutun.Base.{
  ℕ, ◌-◌, Text, eqb, ltb, if◌then◌else◌, Bool, ◌&&◌, Option, none, some, List, [], ◌∷◌, length,
  take, get_or,
}
use neutun.Str.{ends_with}

-- The part of the host before a dot and the allowed domain.
unfoldable pub prefix_of : Text → Text → Option Text
prefix_of host allowed =
    let len_suffix = length allowed in
    let len_host = length host in
    if ends_with host allowed
      && ltb len_suffix len_host
      && eqb (get_or host (len_host - len_suffix - 1) 0) b'.'
    then some (take (len_host - len_suffix - 1) host)
    else none

unfoldable pub validate_host_prefix : List Text → Text → Option (Text × Text)
unfolding prefix_of
validate_host_prefix [] host = none
validate_host_prefix (allowed ∷ rest) host =
    let later = validate_host_prefix rest host in
    elim (prefix_of host allowed) [ some prefix ↦ some (prefix, allowed) | none ↦ later ]
