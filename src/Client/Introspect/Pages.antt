-- ===== src/Client/Introspect/Pages.antt =====
-- The pages of the dashboard, by method and path: `start_introspect_web_dashboard` of
-- neutun/src/introspect/mod.rs.
use neutun.Base.{Text, ◌==◌, if◌then◌else◌, ◌&&◌, codes, List, [], ◌∷◌}

pub data Method : Type 0 where
  get post other : Method

-- The filters of `start_introspect_web_dashboard`, on the segments of the path.
pub data Page : Type 0 where
  index styles logo unserved : Page
  detail replayed : Text → Page

abbrev param : (Text → Page) → Text → Page
param page [] = unserved
param page (b ∷ t) = page (b ∷ t)

static_file : List Text → Page
static_file (dir ∷ file ∷ []) =
    if dir == codes "css" && file == codes "styles.css"
    then styles
    else if dir == codes "img" && file == codes "logo.png"
    then logo
    else unserved
static_file _ = unserved

-- What follows the id of a request is not looked at.
under : Method → Text → List Text → Page
unfolding static_file
under get name rest = if name == codes "static" then static_file rest else unserved
under _ name rest = unserved

with_id : Method → Text → Text → Page
with_id get name id = if name == codes "detail" then param detail id else unserved
with_id post name id = if name == codes "replay" then param replayed id else unserved
with_id other name id = unserved

unfoldable pub web_explorer : Method → List Text → Page
unfolding with_id under
web_explorer get [] = index
web_explorer method [] = unserved
web_explorer method (name ∷ []) = unserved
web_explorer method (name ∷ id ∷ rest) = elim (with_id method name id) [
  | unserved ↦ under method name (id ∷ rest)
  | index ↦ index
  | styles ↦ styles
  | logo ↦ logo
  | detail rid ↦ detail rid
  | replayed rid ↦ replayed rid
]
