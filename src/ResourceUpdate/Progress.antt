-- ===== src/ResourceUpdate/Progress.antt =====
-- internal/metastructure/resource_update/resource_update.go: the classification of an update by its
-- operation, and the progress results that it has collected.
pub mod State
pub mod Record
use formae.Prelude.{
  ℕ, Bool, true, false, not, ◌||◌, Option, none, some, ◌++◌, ◌∷◌, [], List, Text, length, ltb, any,
  find, if◌then◌else◌, ite, is_empty, ◌==◌, ◌&&◌,
}
use mathlib.Core.Bool.{decide}
use formae.Model.Resource.{Resource}
use formae.Plugin.Progress.{
  Operation, ProgressResult, operation_discrete, is_success, is_failure, failed,
  finished_successfully,
}
use formae.ResourceUpdate.{OperationType, UpdateState, ResourceUpdate}

abbrev pub requires_delete : OperationType → Bool
requires_delete OperationType.delete = true
requires_delete OperationType.replace = true
requires_delete _ = false

-- `IsCreate`, `IsUpdate`, `IsSync` and `IsDelete`.
abbrev pub is_create : OperationType → Bool
is_create OperationType.create = true
is_create OperationType.replace = true
is_create _ = false

abbrev pub is_update : OperationType → Bool
is_update OperationType.update = true
is_update _ = false

abbrev pub is_sync : OperationType → Bool
is_sync OperationType.read = true
is_sync _ = false

abbrev pub is_delete : OperationType → Bool
is_delete OperationType.delete = true
is_delete OperationType.replace = true
is_delete _ = false

abbrev pub is_read : Operation → Bool
is_read Operation.read = true
is_read _ = false

abbrev pub same_operation : Operation → Operation → Bool
same_operation a b = ite (operation_discrete a b) true false

unfoldable pub has_progress : ResourceUpdate → Bool
has_progress ru = any (λ p. not (is_read p.operation)) ru.progress_result

unfoldable pub find_progress : ResourceUpdate → Operation → Option ProgressResult
find_progress ru operation = find (λ p. same_operation p.operation operation) ru.progress_result

abbrev first_message : (ProgressResult → Bool) → List ProgressResult → Text
first_message filter [] = []
first_message filter (p ∷ ps) = if filter p then p.status_message else first_message filter ps

unfoldable pub filter_progress_message : (ProgressResult → Bool) → ResourceUpdate → Text
filter_progress_message filter ru = first_message filter ru.progress_result

unfoldable pub most_recent_failure_message : ResourceUpdate → Text
unfolding filter_progress_message
most_recent_failure_message ru =
    let message = filter_progress_message (λ p. failed p && not (is_empty p.status_message)) ru in
    if is_empty message
    then filter_progress_message
        (λ p. is_failure p.operation_status && not (is_empty p.status_message)) ru
    else message

-- `MostRecentStatusMessage`: the last message that is not empty.
last_message : List ProgressResult → Text
last_message [] = []
last_message (p ∷ ps) =
    let rest = last_message ps in if is_empty rest then p.status_message else rest

unfoldable pub most_recent_status_message : ResourceUpdate → Text
unfolding last_message
most_recent_status_message ru = last_message ru.progress_result

-- `Reject`, `MarkAsSuccess` and `MarkAsFailed`, with the reading of the clock.
unfoldable pub reject : ℕ → ResourceUpdate → ResourceUpdate
reject now ru = record ru { state = UpdateState.rejected; modified_ts = now }

unfoldable pub mark_as_success : ℕ → ResourceUpdate → ResourceUpdate
mark_as_success now ru = record ru { state = UpdateState.success; modified_ts = now }

unfoldable pub mark_as_failed : ℕ → ResourceUpdate → ResourceUpdate
mark_as_failed now ru = record ru { state = UpdateState.failed; modified_ts = now }

unfoldable pub required_operations : OperationType → List Operation
required_operations OperationType.read = Operation.read ∷ []
required_operations OperationType.create = Operation.create ∷ []
required_operations OperationType.delete = Operation.read ∷ Operation.delete ∷ []
required_operations OperationType.update = Operation.read ∷ Operation.update ∷ []
required_operations OperationType.replace =
    Operation.read ∷ Operation.delete ∷ Operation.create ∷ []

-- The loop of `updateState`, with its `break` at the first failure.
final_state : UpdateState → List ProgressResult → UpdateState
final_state acc [] = acc
final_state acc (p ∷ ps) =
    if failed p
    then UpdateState.failed
    else final_state (if is_success p.operation_status then acc else UpdateState.in_progress) ps

pub next_state : OperationType → List ProgressResult → UpdateState
unfolding final_state
next_state operation [] = UpdateState.not_started
next_state operation (p ∷ ps) =
    if ltb (length (p ∷ ps)) (length (required_operations operation))
    then UpdateState.in_progress
    else final_state UpdateState.success (p ∷ ps)

unfoldable pub update_state : ResourceUpdate → ResourceUpdate
unfolding next_state
update_state ru = record ru { state = next_state ru.operation ru.progress_result }

-- The loop of `RecordProgress`: every entry for the operation is overwritten.
overwrite : ProgressResult → List ProgressResult → List ProgressResult
overwrite progress [] = []
overwrite progress (p ∷ ps) =
    (if same_operation p.operation progress.operation then progress else p) ∷ overwrite progress ps

record_result : ProgressResult → ResourceUpdate → ResourceUpdate
unfolding overwrite
record_result progress ru =
    if any (λ p. same_operation p.operation progress.operation) ru.progress_result
    then record ru { progress_result = overwrite progress ru.progress_result }
    else record ru {
      progress_result = ru.progress_result ++ progress ∷ [];
      most_recent_progress_result = some progress;
    }

-- Splitting and merging the property documents is `updateProperties`, here a parameter: from the
-- incoming and the stored document it gives the new properties and read-only properties, or fails.
module _ (update_properties : Text → Text → Option (Text × Text)) where
  abbrev merge_into : Text → Resource → Option Resource
  merge_into incoming r = elim (update_properties incoming r.properties) [
    | none ↦ none
    | some (props, read_only) ↦
        some (record r { properties = props; read_only_properties = read_only })
  ]

  -- `updateResourceUpdateFromProgress`; the flag is false where it returns an error.
  update_from_progress : ProgressResult → ResourceUpdate → ResourceUpdate × Bool
  unfolding update_state finished_successfully
  update_from_progress progress ru =
      let stated = update_state ru in
      let ru' = record stated {
        resource = record stated.resource { native_id = progress.native_id };
        start_ts = if stated.start_ts == 0 then progress.start_ts else stated.start_ts;
        modified_ts = progress.modified_ts;
      } in
      if finished_successfully progress && (is_update ru'.operation && is_read progress.operation)
      then (elim (merge_into progress.resource_properties ru'.existing_resource) [
        | none ↦ (ru', false)
        | some r ↦ (record ru' { existing_resource = r }, true)
      ])
      else (elim (merge_into progress.resource_properties ru'.resource) [
        | none ↦ (ru', false)
        | some r ↦ (record ru' { resource = r }, true)
      ])

  unfoldable pub record_progress : ProgressResult → ResourceUpdate → ResourceUpdate × Bool
  unfolding update_from_progress record_result
  record_progress progress ru = update_from_progress progress (record_result progress ru)
