-- ===== src/ResourceUpdate/Factory.antt =====
-- internal/metastructure/resource_update/resource_update_factory.go: the resource updates for one resource.
pub mod Laws
use formae.Prelude.{
  Bool, true, false, not, Option, none, some, List, ◌∷◌, [], Text, is_empty, if◌then◌else◌,
  text_discrete, ite,
}
use formae.Prelude.Results.{Result, ok, err, ◌>>=◌}
use formae.Model.Uri.{FormaeUri}
use formae.Model.Schema.{Schema, create_only_fields, required_on_create_fields}
use formae.Model.Resource.{Resource}
use formae.Model.Forma.{Target, Forma}
use formae.ResourceUpdate.{OperationType, UpdateState, CommandSource, ResourceUpdate}

-- The modes None and Properties are for other commands.
pub data ApplyMode : Type 0 where
  reconcile patch no_mode properties_mode : ApplyMode

-- What gjson finds under a property: nothing, null, a string or another value.
pub data PropertyValue : Type 0 where
  absent null_value other_value : PropertyValue
  string_value : Text → PropertyValue

-- What the functions on JSON documents give: comparison, conversion and references of
-- resource_comparison.go and resolver.go, and the patches of patch_document.go; `none` is an error.
-- `same_resource` is `reflect.DeepEqual`, `same_json` is `JsonEqualRaw`.
pub record Documents : Type 0 where
  pub same_resource : Resource → Resource → Bool
  pub same_json : Text → Text → Bool
  pub enforce_set_once_and_compare : Resource → Resource → Option (Bool × Text)
  pub to_plugin_format : Text → Option Text
  pub generate_patch :
      Text → Text → Text → List Text → List Text → ApplyMode → Option (Option Text × Bool)
  pub extract_resolvable_uris : Resource → List FormaeUri
  pub metadata : Resource → Option Text
  pub property : Resource → Text → PropertyValue
  pub load_resolvable_properties : Resource → List Forma → Option Text

-- The errors that the generator returns. `nil_pointer` is the panic of Go where a target is missing.
pub data GenerateError : Type 0 where
  missing_required_fields : List Text → GenerateError
  target_not_found stack_not_found : Text → GenerateError
  target_namespace_mismatch target_config_mismatch : Text → GenerateError
  labels_differ documents_failed load_failed unsupported nil_pointer : GenerateError

abbrev pub Generated : Type 0 → Type 0
Generated A = Result GenerateError A

-- Turns the `none` of a function on documents into its error.
abbrev pub document : {A : Type 0} → Option A → Generated A
document none = err documents_failed
document (some a) = ok a

abbrev pub is_missing : PropertyValue → Bool
is_missing PropertyValue.absent = true
is_missing PropertyValue.null_value = true
is_missing (PropertyValue.string_value s) = is_empty s
is_missing PropertyValue.other_value = false

abbrev no_resource : Resource
no_resource = record {
  label = [];
  group = [];
  type = [];
  stack = [];
  target = [];
  schema = record {
    identifier = [];
    tags = [];
    fields = [];
    nonprovisionable = false;
    hints = [];
    discoverable = false;
  };
  properties = [];
  read_only_properties = [];
  patch_document = [];
  native_id = [];
  managed = false;
  ksuid = [];
}

abbrev no_target : Target
no_target = record { label = []; namespace = []; config = [] }

-- A literal of ResourceUpdate that names only these fields.
abbrev pub blank : OperationType → CommandSource → ResourceUpdate
blank operation source = record {
  resource = no_resource;
  resource_target = no_target;
  existing_resource = no_resource;
  existing_target = no_target;
  operation = operation;
  meta_data = [];
  state = UpdateState.not_started;
  start_ts = 0;
  modified_ts = 0;
  version = [];
  most_recent_progress_result = none;
  progress_result = [];
  source = source;
  remaining_resolvables = [];
  stack_label = [];
  previous_properties = [];
}

module _ (docs : Documents) where
  -- `GetMissingRequiredOnCreateFields` of pkg/model/resource.go.
  unfoldable pub missing_fields : Resource → List Text → List Text
  missing_fields r [] = []
  missing_fields r (f ∷ fs) =
      let rest = missing_fields r fs in if is_missing (docs.property r f) then f ∷ rest else rest

  unfoldable pub new_resource_update_for_destroy :
      Resource → Target → CommandSource → Generated ResourceUpdate
  new_resource_update_for_destroy existing target source = do
    metadata ← document (docs.metadata existing)
    ok (record (blank OperationType.delete source) {
      existing_resource = existing;
      resource = existing;
      resource_target = target;
      meta_data = metadata;
      stack_label = existing.stack;
      remaining_resolvables = docs.extract_resolvable_uris existing;
    })

  -- The error for missing fields, or the update.
  abbrev created : Resource → Target → CommandSource → List Text → Generated ResourceUpdate
  created r target source (f ∷ fs) = err (missing_required_fields (f ∷ fs))
  created r target source [] = ok (record (blank OperationType.create source) {
    resource = record r { managed = true };
    resource_target = target;
    stack_label = r.stack;
    remaining_resolvables = docs.extract_resolvable_uris (record r { managed = true });
  })

  unfoldable pub new_resource_update_for_create :
      Resource → Target → CommandSource → Generated ResourceUpdate
  unfolding missing_fields required_on_create_fields
  new_resource_update_for_create r target source =
      created r target source (missing_fields r (required_on_create_fields r.schema))

  -- The delete first, then the create. The group id that both get is left out.
  unfoldable pub new_resource_update_for_replace :
      (existing new : Resource)
      → (existing_target new_target : Target) → CommandSource
      → Generated (List ResourceUpdate)
  unfolding new_resource_update_for_destroy
  new_resource_update_for_replace existing new existing_target new_target source = do
    delete ← new_resource_update_for_destroy existing existing_target source
    metadata ← document (docs.metadata new)
    ok (
        delete
        ∷ record (blank OperationType.create source) {
          resource = record new { managed = true };
          resource_target = new_target;
          meta_data = metadata;
          stack_label = new.stack;
          remaining_resolvables = docs.extract_resolvable_uris new;
        }
        ∷ [])

  unfoldable pub update_of :
      (existing new : Resource)
      → (existing_target new_target : Target) → CommandSource
      → (filtered diff : Text) → Generated ResourceUpdate
  update_of existing new existing_target new_target source filtered diff = do
    metadata ← document (docs.metadata existing)
    ok (record (blank OperationType.update source) {
      existing_resource = existing;
      existing_target = existing_target;
      resource = record no_resource {
        label = new.label;
        type = new.type;
        stack = new.stack;
        schema = new.schema;
        properties = filtered;
        patch_document = diff;
        target = new.target;
        native_id = existing.native_id;
        managed = true;
        ksuid = new.ksuid;
      };
      resource_target = new_target;
      meta_data = metadata;
      stack_label = new.stack;
      remaining_resolvables = docs.extract_resolvable_uris new;
      previous_properties = existing.properties;
    })

  -- What follows GeneratePatch: no patch, a replacement, or an update.
  unfoldable pub patched :
      (existing new : Resource)
      → (existing_target new_target : Target) → CommandSource
      → (filtered : Text) → Option Text × Bool
      → Generated (List ResourceUpdate)
  unfolding new_resource_update_for_replace update_of
  patched existing new existing_target new_target source filtered (none, needs_replacement) = ok []
  patched existing new existing_target new_target source filtered (some diff, true) =
      new_resource_update_for_replace existing new existing_target new_target source
  patched existing new existing_target new_target source filtered (some diff, false) = do
    u ← update_of existing new existing_target new_target source filtered diff
    ok (u ∷ [])

  -- After the comparison of the properties.
  unfoldable pub compared :
      Text
      → (existing new : Resource) → (existing_target new_target : Target) → ApplyMode
      → CommandSource
      → Bool × Text
      → Generated (List ResourceUpdate)
  unfolding patched create_only_fields
  compared resolvable existing new existing_target new_target mode source (false, filtered) = ok []
  compared resolvable existing new existing_target new_target mode source (true, filtered) = do
    old ← document (docs.to_plugin_format existing.properties)
    wanted ← document (docs.to_plugin_format filtered)
    p ← document (
        docs.generate_patch old wanted resolvable existing.schema.fields
          (create_only_fields existing.schema) mode)
    patched existing new existing_target new_target source filtered p

  unfoldable pub new_resource_update_for_existing :
      Text
      → (existing new : Resource) → (existing_target new_target : Target) → ApplyMode
      → CommandSource
      → Generated (List ResourceUpdate)
  unfolding compared
  new_resource_update_for_existing resolvable existing new existing_target new_target mode source =
      if docs.same_resource existing new
      then ok []
      else if not (ite (text_discrete existing.label new.label) true false)
      then err labels_differ
      else (do
        c ← document (docs.enforce_set_once_and_compare existing new)
        compared resolvable existing new existing_target new_target mode source c)

  -- Without the filter, which is a function of the plugin.
  unfoldable pub new_resource_update_for_sync :
      Resource → Target → CommandSource → Generated ResourceUpdate
  new_resource_update_for_sync existing target source = do
    properties ← document (docs.to_plugin_format existing.properties)
    metadata ← document (docs.metadata (record existing { properties = properties }))
    ok (record (blank OperationType.read source) {
      existing_resource = record existing { properties = properties };
      existing_target = target;
      resource = existing;
      resource_target = target;
      meta_data = metadata;
      stack_label = existing.stack;
      previous_properties = properties;
    })
