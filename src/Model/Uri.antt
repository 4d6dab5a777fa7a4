-- ===== src/Model/Uri.antt =====
-- pkg/model/uri.go: resource URIs over KSUIDs, `formae://<ksuid>#/<property path>`.
pub mod Laws
use formae.Prelude.{
  Bool, true, false, ◌||◌, Option, none, some, ◌++◌, ◌∷◌, [], drop, Text, codes, is_empty,
  has_prefix, split_2, if◌then◌else◌,
}

-- `type FormaeURI string`
abbrev pub FormaeUri : Type 0
FormaeUri = Text

abbrev pub scheme : Text
scheme = codes "formae://"

unfoldable pub new_formae_uri : Text → Text → FormaeUri
new_formae_uri uri property =
    if is_empty property
    then scheme ++ (uri ++ codes "#")
    else scheme ++ (uri ++ (codes "#/" ++ property))

-- What `strings.SplitN(s[9:], "#", 2)` gives; with no second part there is no `#`.
abbrev parts : FormaeUri → Text × Option Text
parts f = split_2 b'#' (drop 9 f)

abbrev valid_parts : Text → Option Text → Bool
valid_parts before none = false
valid_parts before (some fragment) =
    if is_empty before then false else is_empty fragment || has_prefix (codes "/") fragment

unfoldable pub is_valid : FormaeUri → Bool
is_valid f =
    if has_prefix scheme f
    then (let (before, after) = parts f in valid_parts before after)
    else false

abbrev ksuid_of : Text → Option Text → Text
ksuid_of before none = []
ksuid_of before (some _) = before

unfoldable pub ksuid : FormaeUri → Text
ksuid f =
    if has_prefix scheme f then (let (before, after) = parts f in ksuid_of before after) else []

-- The fragment less its leading slash; both "" and "/" give "".
abbrev path_of_fragment : Text → Text
path_of_fragment [] = []
path_of_fragment (c ∷ rest) = if has_prefix (codes "/") (c ∷ rest) then rest else c ∷ rest

abbrev property_path_of : Option Text → Text
property_path_of none = []
property_path_of (some fragment) = path_of_fragment fragment

unfoldable pub property_path : FormaeUri → Text
property_path f =
    if has_prefix scheme f then (let (before, after) = parts f in property_path_of after) else []

unfoldable pub stripped : FormaeUri → FormaeUri
stripped f = new_formae_uri (ksuid f) []
