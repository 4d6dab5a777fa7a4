-- ===== src/ResourcePersister.antt =====
-- internal/metastructure/resource_persister/resource_persister.go: the actor that writes the result of an
-- update to the tables of resources and targets. The tables are those of Datastore.
pub mod Keys
pub mod Stored
use formae.Prelude.{
  ℕ, Bool, true, false, not, ◌&&◌, ◌||◌, Option, none, some, List, ◌∷◌, [], Text, any, is_empty,
  if◌then◌else◌,
}
use formae.Model.Uri.{FormaeUri, ksuid}
use formae.Model.Resource
use formae.Model.Resource.{Resource}
use formae.Model.Schema.{FieldHint}
use formae.Model.Forma.{Target, Stack, Forma, same, split_by_stack, single_stack_label}
use formae.Plugin.Progress.{Operation, ErrorCode, ProgressResult}
use formae.ResourceUpdate.{OperationType, UpdateState, ResourceUpdate}
use formae.ResourceUpdate.Progress.{find_progress}
use formae.Datastore.{
  Table, Ids, load_resource, load_resource_by_id, store_resource, delete_resource, load_target,
  store_target,
}

-- The tables that the actor writes.
pub record Tables : Type 0 where
  pub resources : Table
  pub targets : List Target

-- What the actor asks the code on JSON documents and versions: `ApplyToResource` of the value transformer,
-- `GetProperty`, and the text of a version, `<ksuid>_<version>`.
pub record Answers : Type 0 where
  pub ids : Ids
  pub secret_safe : Resource → Option Resource
  pub property : Resource → Text → Option Text
  pub version_text : Text × ℕ → Text

pub data Answer : Type 0 where
  panicked : Answer
  failed : Answer
  version : Text → Answer
  loaded : Resource → Target → Answer

pub data Message : Type 0 where
  persist : Text → OperationType → Operation → ResourceUpdate → Message
  load : FormaeUri → Message

-- `delegateCommandFromOperation`, which panics for the other operations.
unfoldable pub delegate_command_from_operation : Operation → ProgressResult → Option OperationType
delegate_command_from_operation Operation.create p = some OperationType.create
delegate_command_from_operation Operation.update p = some OperationType.update
delegate_command_from_operation Operation.delete p = some OperationType.delete
delegate_command_from_operation Operation.read p = some (after_read p.error_code)
  where
    after_read : ErrorCode → OperationType
    after_read ErrorCode.not_found = OperationType.delete
    after_read _ = OperationType.read
delegate_command_from_operation _ p = none

abbrev is_delete : OperationType → Bool
is_delete OperationType.delete = true
is_delete _ = false

abbrev is_success : UpdateState → Bool
is_success UpdateState.success = true
is_success _ = false

-- Storing a target that exists changes nothing in the table, see `store_target`.
abbrev pub is_changed : Target → Target → Bool
is_changed current target =
    not (same current.label target.label)
    || (not (same current.namespace target.namespace) || not (same current.config target.config))

unfoldable pub put_target : Target → List Target → List Target
unfolding store_target load_target
put_target target ts = elim (load_target target.label ts) [
  | none ↦ store_target target ts
  | some current ↦ if is_changed current target then store_target target ts else ts
]

abbrev pub has_successful_command : List ResourceUpdate → Text → Bool
has_successful_command us label =
    any
      (λ u.
        is_success u.state && (not (is_empty u.resource.target) && same u.resource.target label))
      us

-- `storeTarget`.
unfoldable pub store_targets : List ResourceUpdate → List Target → List Target → List Target
unfolding put_target
store_targets us [] ts = ts
store_targets us (target ∷ rest) ts =
    store_targets us rest
      (if has_successful_command us target.label then put_target target ts else ts)

module _ (w : Answers) where
  abbrev pub is_missing : Option Text → Bool
  is_missing none = true
  is_missing (some v) = is_empty v

  -- `validateRequiredFields`: whether a required field is missing.
  unfoldable pub misses_required : Resource → List (Text × FieldHint) → Bool
  misses_required r [] = false
  misses_required r ((field, hint) ∷ hints) =
      hint.required && is_missing (w.property r field) || misses_required r hints

  abbrev pub with_version : Option (Table × (Text × ℕ)) → Option (Table × Text)
  with_version none = none
  with_version (some (t, v)) = some (t, w.version_text v)

  -- A read stores what it found if it differs from what is stored.
  unfoldable pub process_read :
      Text → Resource → Resource → Table → Option Resource → Option (Table × Text)
  unfolding store_resource
  process_read command_id r safe t none = with_version (store_resource w.ids safe command_id t)
  process_read command_id r safe t (some current) =
      if not (w.ids.same_json current.properties r.properties)
        || not (w.ids.same_json current.read_only_properties r.read_only_properties)
      then with_version (store_resource w.ids safe command_id t)
      else some (t, [])

  unfoldable pub process_delete : Text → Resource → Table → Option Resource → Option (Table × Text)
  unfolding delete_resource
  process_delete command_id r t none = some (t, [])
  process_delete command_id r t (some _) = with_version (delete_resource w.ids r command_id t)

  unfoldable pub process_safe :
      Text → OperationType → Resource → Resource → Table → Option (Table × Text)
  unfolding store_resource load_resource process_read process_delete
  process_safe command_id OperationType.create r safe t =
      with_version (store_resource w.ids (record safe { patch_document = [] }) command_id t)
  process_safe command_id OperationType.update r safe t =
      with_version (store_resource w.ids (record safe { patch_document = [] }) command_id t)
  process_safe command_id OperationType.delete r safe t =
      process_delete command_id r t (load_resource (Resource.uri r) t)
  process_safe command_id OperationType.read r safe t =
      process_read command_id r safe t (load_resource (Resource.uri r) t)
  process_safe command_id OperationType.replace r safe t = none

  -- `processResourceUpdate`: an error is `none`, and without anything to store the version is empty.
  unfoldable pub process_resource_update :
      Text → OperationType → Resource → Table → Option (Table × Text)
  unfolding process_safe
  process_resource_update command_id operation r t = elim (w.secret_safe r) [
    | none ↦ none
    | some safe ↦ process_safe command_id operation r safe t
  ]

  -- One update in `storeStacks`: a target is stored even if the resource then fails.
  abbrev pub versioned :
      Tables → ResourceUpdate → Option (Table × Text) → Tables × Option ResourceUpdate
  versioned s u none = (s, none)
  versioned s u (some (t, hash)) =
      (record s { resources = t }, some (if is_empty hash then u else record u { version = hash }))

  unfoldable pub store_update :
      Text
      → List ResourceUpdate
      → List Target
      → Text
      → ResourceUpdate
      → Tables
      → Tables × Option ResourceUpdate
  unfolding store_targets process_resource_update
  store_update command_id us targets label u s =
      let s' = record s { targets = store_targets us targets s.targets } in
      if same u.resource.stack label && (is_success u.state && is_empty u.version)
      then versioned s' u (process_resource_update command_id u.operation u.resource s.resources)
      else (s, some u)

  -- A part of a split forma has a stack. `storeStacks`, for the command of one update that `storeResourceUpdate` makes.
  unfoldable pub store_stacks :
      Text → List Target → ResourceUpdate → List Forma → Tables → Tables × Answer
  unfolding store_update single_stack_label
  store_stacks command_id targets u [] s = (s, version u.version)
  store_stacks command_id targets u (stack ∷ stacks) s =
      let (s', o) = store_update command_id (u ∷ []) targets (single_stack_label stack) u s in
      elim o [ none ↦ (s', failed) | some u' ↦ store_stacks command_id targets u' stacks s' ]

  abbrev pub command_forma : ResourceUpdate → Forma
  command_forma ru = record {
    stacks = record { label = ru.stack_label; description = [] } ∷ [];
    targets = ru.resource_target ∷ [];
    resources = ru.resource ∷ [];
  }

  -- The resource of a read before an update is the existing one.
  abbrev pub read_before_update : Operation → OperationType → Bool
  read_before_update Operation.read OperationType.update = true
  read_before_update _ _ = false

  -- The update that is written; its fields that are not read are left as they are.
  abbrev pub command_update :
      OperationType → Operation → OperationType → ProgressResult → ResourceUpdate → ResourceUpdate
  command_update resource_operation plugin_operation operation p ru = record ru {
    resource =
        if read_before_update plugin_operation resource_operation
        then ru.existing_resource
        else ru.resource;
    operation = operation;
    state = UpdateState.success;
    start_ts = p.start_ts;
    modified_ts = p.modified_ts;
    version = [];
    most_recent_progress_result = some p;
  }

  -- The rest of `storeResourceUpdate`; the forma has one resource, and so one stack.
  unfoldable pub store_relevant :
      Text → OperationType → Operation → ResourceUpdate → ProgressResult → Tables → Tables × Answer
  unfolding misses_required delegate_command_from_operation store_stacks split_by_stack
  store_relevant command_id resource_operation plugin_operation ru p s =
      if not (is_delete resource_operation) && misses_required ru.resource ru.resource.schema.hints
      then (s, version [])
      else (elim (delegate_command_from_operation plugin_operation p) [
        | none ↦ (s, panicked)
        | some operation ↦
            store_stacks command_id (ru.resource_target ∷ [])
              (command_update resource_operation plugin_operation operation p ru)
              (split_by_stack (ru.resource.stack ∷ []) (command_forma ru)) s
      ])

  unfoldable pub store_resource_update :
      Text → OperationType → Operation → ResourceUpdate → Tables → Tables × Answer
  unfolding store_relevant find_progress
  store_resource_update command_id resource_operation plugin_operation ru s =
      elim (find_progress ru plugin_operation) [
        | none ↦ (s, panicked)
        | some p ↦ store_relevant command_id resource_operation plugin_operation ru p s
      ]

  -- `loadResource`.
  abbrev with_target : Resource → Option Target → Answer
  with_target r none = failed
  with_target r (some t) = loaded r t

  abbrev found_resource : Tables → Option Resource → Answer
  unfolding load_target
  found_resource s none = failed
  found_resource s (some r) = with_target r (load_target r.target s.targets)

  unfoldable pub handle_call : Message → Tables → Tables × Answer
  unfolding store_resource_update load_resource_by_id found_resource ksuid
  handle_call (persist command_id resource_operation plugin_operation ru) s =
      store_resource_update command_id resource_operation plugin_operation ru s
  handle_call (load uri) s = (s, found_resource s (load_resource_by_id (ksuid uri) s.resources))
