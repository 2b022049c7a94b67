-- ===== src/Client/Update.antt =====
-- neutun/src/update.rs: the search for a newer release. The request itself is not modelled.
use neutun.Base.{ℕ, Text, eqb, if◌then◌else◌, Bool, Option, none, some, [], ◌∷◌, Result, ok, err}

pub record Update : Type 0 where
  pub html_url : Text
  pub name : Text

-- The crate semver: its order and its parser.
pub record Semver : Type 1 where
  pub Version : Type 0
  pub from_str : Text → Option Version
  pub newer : Version → Version → Bool

-- What the release server answers: nothing, 404, or a body that may not be an `Update`.
pub data Response : Type 0 where
  unreachable not_found : Response
  body : Option Update → Response

unfoldable pub trim_start_matches : ℕ → Text → Text
trim_start_matches c [] = []
trim_start_matches c (b ∷ t) = let rest = trim_start_matches c t in if eqb b c then rest else b ∷ t

module _ (semver : Semver) where
  open semver use {Version, from_str, newer}

  compared : Update → Option Version → Option Version → Result (Option Update) (Unit {0})
  compared update none remote = err tt
  compared update (some cur) none = err tt
  compared update (some cur) (some remote) = ok (if newer remote cur then some update else none)

  unfoldable pub check_inner : Text → Response → Result (Option Update) (Unit {0})
  unfolding compared
  check_inner current_version unreachable = err tt
  check_inner current_version not_found = ok none
  check_inner current_version (body none) = err tt
  check_inner current_version (body (some update)) =
      compared update (from_str current_version) (from_str (trim_start_matches b'v' update.name))
