-- ===== src/Model/Schema.antt =====
-- pkg/model/schema.go: what is known of the fields of a resource type.
use formae.Prelude.{Bool, List, ◌∷◌, [], Text, if◌then◌else◌}

pub record FieldHint : Type 0 where
  pub create_only : Bool
  pub persist : Bool
  pub write_only : Bool
  pub required : Bool
  pub required_on_create : Bool

-- The map of hints is the list of its entries, in the order in which Go ranges over it.
pub record Schema : Type 0 where
  pub identifier : Text
  pub tags : Text
  pub fields : List Text
  pub nonprovisionable : Bool
  pub hints : List (Text × FieldHint)
  pub discoverable : Bool

-- `filterFields` for the value true.
unfoldable pub filter_fields : (FieldHint → Bool) → List (Text × FieldHint) → List Text
filter_fields selector [] = []
filter_fields selector ((k, v) ∷ hints) =
    let rest = filter_fields selector hints in if selector v then k ∷ rest else rest

unfoldable pub create_only_fields : Schema → List Text
unfolding filter_fields
create_only_fields s = filter_fields (λ h. h.create_only) s.hints

unfoldable pub required_on_create_fields : Schema → List Text
unfolding filter_fields
required_on_create_fields s = filter_fields (λ h. h.required_on_create) s.hints
