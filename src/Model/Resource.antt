-- ===== src/Model/Resource.antt =====
-- pkg/model/resource.go: the resource record and the names derived from it.
use formae.Prelude.{Bool, ◌∷◌, [], Text, codes, has_prefix, if◌then◌else◌}
use formae.Model.Schema.{Schema}
use formae.Model.Uri.{FormaeUri, new_formae_uri}

-- JSON documents are kept as their text.
pub record Resource : Type 0 where
  pub label : Text
  pub group : Text
  pub type : Text
  pub stack : Text
  pub target : Text
  pub schema : Schema
  pub properties : Text
  pub read_only_properties : Text
  pub patch_document : Text
  pub native_id : Text
  pub managed : Bool
  pub ksuid : Text

unfoldable pub uri : Resource → FormaeUri
uri r = new_formae_uri r.ksuid []

-- `strings.Split(type, "::")[0]`
abbrev first_fragment : Text → Text
first_fragment [] = []
first_fragment (c ∷ s) =
    let rest = first_fragment s in if has_prefix (codes "::") (c ∷ s) then [] else c ∷ rest

unfoldable pub namespace : Resource → Text
namespace r = first_fragment r.type
