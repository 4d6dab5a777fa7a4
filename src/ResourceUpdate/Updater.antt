-- ===== src/ResourceUpdate/Updater.antt =====
-- resource_updater.go: the actor that takes one resource update through its plugin operations.
-- In Go `nextState` and the handlers call each other, always for a later state: here each function
-- stands below those that it calls, and `handle_progress` gets what follows a success as an argument.
-- The command source of the updater's data is the source of the update, which never changes.
pub mod Handlers
pub mod Final
pub mod Ends
pub mod Operations
pub mod Reach
pub mod Runs
use formae.Prelude.{
  ℕ, Bool, true, false, not, ◌&&◌, Option, none, some, List, ◌∷◌, [], Text, is_empty, if◌then◌else◌,
}
use formae.Model.Uri.{FormaeUri}
use formae.Model.Resource.{Resource}
use formae.Plugin.Progress.{
  Operation, ProgressResult, finished_successfully as is_successful, failed, has_finished,
}
use formae.ResourceUpdate
use formae.ResourceUpdate.{OperationType, UpdateState, CommandSource, ResourceUpdate}
use formae.ResourceUpdate.Progress.{
  is_create, is_update, is_sync, is_delete, requires_delete, has_progress, find_progress,
  record_progress, mark_as_success, mark_as_failed, reject,
}

pub data State : Type 0 where
  initializing synchronizing resolving deleting creating updating exiting : State
  finished_successfully finished_with_error rejected : State

-- What the actors around the updater answer while one message is handled, with `none` and `false` for
-- an error. An operation of the plugin is started at most once for a message, so its result is a
-- function of the operation: `plugin` for a new operator, `resumed` for one that resumes.
pub record World : Type 0 where
  pub plugin : Operation → Option ProgressResult
  pub resumed : Operation → Option ProgressResult
  pub progress_stored : ProgressResult → Bool
  pub persisted : Operation → Option Text
  pub filtered : Text → Bool
  pub label : Resource → Text
  pub resolve_sent : FormaeUri → Bool
  pub resolve_value : FormaeUri → Text → ResourceUpdate → Option ResourceUpdate
  pub update_properties : Text → Text → Option (Text × Text)
  pub now : ℕ

-- The timeout that a handler sets for its state.
pub data Timeout : Type 0 where
  no_timeout operator_missing cache_missing : Timeout

-- `fault` means that the handler returns an error or panics, which ends the actor.
pub record Outcome : Type 0 where
  pub state : State
  pub update : ResourceUpdate
  pub timeout : Timeout
  pub fault : Bool

abbrev pub ends : State → ResourceUpdate → Outcome
ends s u = record { state = s; update = u; timeout = no_timeout; fault = false }

abbrev pub waits : State → Timeout → ResourceUpdate → Outcome
waits s t u = record { state = s; update = u; timeout = t; fault = false }

unfoldable pub current_operation : State → Option Operation
current_operation State.synchronizing = some Operation.read
current_operation State.creating = some Operation.create
current_operation State.updating = some Operation.update
current_operation State.deleting = some Operation.delete
current_operation _ = none

abbrev pub is_discovery : CommandSource → Bool
is_discovery CommandSource.discovery = true
is_discovery _ = false

abbrev pub is_synchronizing : State → Bool
is_synchronizing State.synchronizing = true
is_synchronizing _ = false

abbrev pub is_read_operation : Operation → Bool
is_read_operation Operation.read = true
is_read_operation _ = false

module _ (w : World) (source : CommandSource) where
  unfoldable pub fails : ResourceUpdate → Outcome
  unfolding mark_as_failed
  fails u = ends State.finished_with_error (mark_as_failed w.now u)

  unfoldable pub succeeds : ResourceUpdate → Outcome
  unfolding mark_as_success
  succeeds u = ends State.finished_successfully (mark_as_success w.now u)

  -- After the resource persister has stored the update: `hash` is its answer.
  unfoldable pub persisted_as :
      (ResourceUpdate → Outcome) → State → Operation → ResourceUpdate → Option Text → Outcome
  unfolding fails reject
  persisted_as next s operation u none = fails u
  persisted_as next s operation u (some hash) =
      let u' = record u { version = hash } in
      if is_synchronizing s
        && (not (is_sync u.operation)
            && (is_read_operation operation
                && (not (is_empty hash) && not (is_delete u.operation))))
      then ends State.rejected (reject w.now u')
      else next u'

  unfoldable pub persist :
      (ResourceUpdate → Outcome) → State → ResourceUpdate → Option Operation → Outcome
  unfolding persisted_as
  persist next s u none = record { state = s; update = u; timeout = no_timeout; fault = true }
  persist next s u (some operation) = persisted_as next s operation u (w.persisted operation)

  abbrev labelled : ResourceUpdate → ResourceUpdate
  labelled u =
      if is_discovery source
      then record u { resource = record u.resource { label = w.label u.resource } }
      else u

  -- A plugin operation has succeeded.
  unfoldable pub on_success : (ResourceUpdate → Outcome) → State → ResourceUpdate → Outcome
  unfolding persist succeeds current_operation
  on_success next s u =
      if is_discovery source && w.filtered u.resource.properties
      then succeeds u
      else persist next s (labelled u) (current_operation s)

  -- `handleProgressUpdate` after `RecordProgress`.
  unfoldable pub recorded :
      (ResourceUpdate → Outcome) → State → ProgressResult → ResourceUpdate × Bool → Outcome
  unfolding on_success fails is_successful failed
  recorded next s message (u, ok) =
      if not ok
      then fails u
      else if not (w.progress_stored message)
      then fails u
      else if is_successful message
      then on_success next s u
      else if failed message
      then ends State.finished_with_error u
      else waits s operator_missing u

  unfoldable pub handle_progress :
      (ResourceUpdate → Outcome) → State → ResourceUpdate → ProgressResult → Outcome
  unfolding recorded record_progress
  handle_progress next s u message =
      recorded next s message (record_progress w.update_properties message u)

  abbrev after_resume :
      (ResourceUpdate → Outcome) → State → ResourceUpdate → Option ProgressResult → Outcome
  unfolding fails handle_progress has_finished
  after_resume next s u none = fails u
  after_resume next s u (some actual) =
      if has_finished actual then handle_progress next s u actual else waits s operator_missing u

  -- The operation that an operator resumes is the one of the state; there is always one.
  abbrev resume : State → Option ProgressResult
  unfolding current_operation
  resume s = elim (current_operation s) [ none ↦ none | some operation ↦ w.resumed operation ]

  unfoldable pub recover_from_previous_progress :
      (ResourceUpdate → Outcome) → State → ResourceUpdate → ProgressResult → Outcome
  unfolding handle_progress has_finished after_resume resume
  recover_from_previous_progress next s u last_known =
      if has_finished last_known
      then handle_progress next s u last_known
      else after_resume next s u (resume s)

  -- A plugin operation that has not been started before.
  unfoldable pub first_result :
      (ResourceUpdate → Outcome)
      → State
      → (on_error : Outcome) → ResourceUpdate
      → Option ProgressResult
      → Outcome
  unfolding handle_progress
  first_result next s on_error u none = on_error
  first_result next s on_error u (some result) = handle_progress next s u result

  -- Previous progress, or else a new plugin operation.
  unfoldable pub run_operation :
      (ResourceUpdate → Outcome)
      → State
      → Operation
      → (on_error : Outcome) → ResourceUpdate
      → Option ProgressResult
      → Outcome
  unfolding recover_from_previous_progress first_result
  run_operation next s operation on_error u (some last_known) =
      recover_from_previous_progress next s u last_known
  run_operation next s operation on_error u none =
      first_result next s on_error u (w.plugin operation)

  -- `nextState` in Creating and Updating is `succeeds`.
  unfoldable pub create : ResourceUpdate → Outcome
  unfolding run_operation succeeds fails find_progress
  create u =
      run_operation succeeds State.creating Operation.create (fails u) u
        (find_progress u Operation.create)

  unfoldable pub update : ResourceUpdate → Outcome
  unfolding run_operation succeeds fails find_progress
  update u =
      run_operation succeeds State.updating Operation.update (fails u) u
        (find_progress u Operation.update)

  -- `nextState` in Resolving.
  unfoldable pub next_resolving : ResourceUpdate → Outcome
  unfolding create update
  next_resolving u = if is_create u.operation then create u else update u

  unfoldable pub resolve_from : ResourceUpdate → List FormaeUri → Outcome
  unfolding next_resolving
  resolve_from u [] = next_resolving u
  resolve_from u (first ∷ rest) =
      let u' = record u { remaining_resolvables = rest } in
      if w.resolve_sent first
      then waits State.resolving cache_missing u'
      else record { state = State.resolving; update = u'; timeout = no_timeout; fault = true }

  unfoldable pub resolve : ResourceUpdate → Outcome
  unfolding resolve_from
  resolve u = resolve_from u u.remaining_resolvables

  -- `nextState` in Deleting.
  unfoldable pub next_deleting : ResourceUpdate → Outcome
  unfolding resolve succeeds
  next_deleting u =
      if not (is_create u.operation) && not (is_update u.operation) then succeeds u else resolve u

  -- A delete that cannot be started leaves the updater in Deleting, with no timeout.
  unfoldable pub delete : ResourceUpdate → Outcome
  unfolding run_operation next_deleting find_progress
  delete u =
      run_operation next_deleting State.deleting Operation.delete (ends State.deleting u) u
        (find_progress u Operation.delete)

  -- `nextState` in Synchronizing.
  unfoldable pub next_synchronizing : ResourceUpdate → Outcome
  unfolding delete resolve
  next_synchronizing u =
      if is_sync u.operation
      then ends State.finished_successfully u
      else if requires_delete u.operation
      then delete u
      else resolve u

  unfoldable pub synchronize : ResourceUpdate → Outcome
  unfolding first_result next_synchronizing fails
  synchronize u =
      first_result next_synchronizing State.synchronizing (fails u) u (w.plugin Operation.read)

  -- `nextState` in Initializing.
  unfoldable pub next_initializing : OperationType → ResourceUpdate → Outcome
  unfolding resolve update delete synchronize has_progress
  next_initializing OperationType.create u = resolve u
  next_initializing OperationType.update u = if has_progress u then update u else synchronize u
  next_initializing OperationType.delete u = if has_progress u then delete u else synchronize u
  next_initializing OperationType.read u = synchronize u
  next_initializing OperationType.replace u = synchronize u

  unfoldable pub next_state : State → ResourceUpdate → Outcome
  unfolding next_initializing next_synchronizing next_deleting next_resolving succeeds fails
  next_state State.initializing u = next_initializing u.operation u
  next_state State.synchronizing u = next_synchronizing u
  next_state State.deleting u = next_deleting u
  next_state State.resolving u = next_resolving u
  next_state State.creating u = succeeds u
  next_state State.updating u = succeeds u
  next_state _ u = record (fails u) { fault = true }
