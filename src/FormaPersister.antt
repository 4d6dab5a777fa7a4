-- ===== src/FormaPersister.antt =====
-- internal/metastructure/forma_persister/forma_command_persister.go: the actor that keeps the stored
-- commands and derives their states, and the record of forma_command.go.
-- The datastore is a function from command ids to commands, and `Answers` says whether it can be read
-- and written. Of the forma in a command the persister reads its resources only. The hashing of a
-- resource (persist_value_transformer.go) is an argument.
pub mod Calls
pub mod States
pub mod Hashing
pub mod Consistency
pub mod Refinement
pub mod Pairs
use formae.Prelude.{
  ℕ, Bool, true, false, not, ◌&&◌, ◌||◌, Option, none, some, List, ◌++◌, ◌∷◌, [], Text, codes, any,
  ite, if◌then◌else◌, is_empty, has_prefix, text_discrete, ◌==◌,
}
use formae.Model.Uri.{FormaeUri}
use formae.Model.Uri
use formae.Model.Resource.{Resource}
use formae.Plugin.Progress.{Operation, ProgressResult}
use formae.ResourceUpdate.{OperationType, UpdateState, ResourceUpdate}
use formae.ResourceUpdate.Progress.{same_operation}

pub data CommandState : Type 0 where
  unknown not_started pending in_progress failed success : CommandState
  cancel_in_progress cancel_complete : CommandState

pub record FormaCommand : Type 0 where
  pub id : Text
  pub resources : List Resource
  pub state : CommandState
  pub start_ts : ℕ
  pub modified_ts : ℕ
  pub resource_updates : List ResourceUpdate
  pub client_id : Text

-- UpdateResourceProgress; a document that is nil is `none`.
pub record ResourceProgress : Type 0 where
  pub command_id : Text
  pub resource_uri : FormaeUri
  pub resource_start_ts : ℕ
  pub resource_modified_ts : ℕ
  pub resource_state : UpdateState
  pub progress : ProgressResult
  pub resource_properties : Option Text
  pub resource_read_only_properties : Option Text
  pub version : Text

-- MarkResourceUpdateAsComplete.
pub record Completion : Type 0 where
  pub command_id : Text
  pub resource_uri : FormaeUri
  pub final_state : UpdateState
  pub resource_start_ts : ℕ
  pub resource_modified_ts : ℕ
  pub resource_properties : Option Text
  pub resource_read_only_properties : Option Text
  pub version : Text

-- BulkUpdateResourceStateByKsuid.
pub record BulkUpdate : Type 0 where
  pub command_id : Text
  pub resource_uris : List FormaeUri
  pub resource_state : UpdateState
  pub resource_modified_ts : ℕ

abbrev pub is_final : UpdateState → Bool
is_final UpdateState.success = true
is_final UpdateState.failed = true
is_final UpdateState.rejected = true
is_final _ = false

abbrev pub is_unsuccessful : UpdateState → Bool
is_unsuccessful UpdateState.failed = true
is_unsuccessful UpdateState.rejected = true
is_unsuccessful _ = false

unfoldable pub overall_command_state : List ResourceUpdate → CommandState
overall_command_state us =
    if any (λ u. not (is_final u.state)) us
    then CommandState.in_progress
    else if any (λ u. is_unsuccessful u.state) us
    then CommandState.failed
    else CommandState.success

unfoldable pub should_update_resource_update : OperationType → Operation → Bool
should_update_resource_update OperationType.create Operation.create = true
should_update_resource_update OperationType.replace Operation.create = true
should_update_resource_update _ Operation.create = false
should_update_resource_update OperationType.delete Operation.delete = true
should_update_resource_update OperationType.replace Operation.delete = true
should_update_resource_update _ Operation.delete = false
should_update_resource_update OperationType.update Operation.update = true
should_update_resource_update OperationType.replace Operation.update = true
should_update_resource_update _ Operation.update = false
should_update_resource_update OperationType.create Operation.read = false
should_update_resource_update _ _ = true

abbrev pub is_for : Text → ResourceUpdate → Bool
is_for ksuid u = ite (text_discrete u.resource.ksuid ksuid) true false

-- A loop that changes the first update that passes the test, and then breaks.
unfoldable pub change_first :
    (ResourceUpdate → Bool)
    → (ResourceUpdate → ResourceUpdate)
    → List ResourceUpdate
    → List ResourceUpdate
change_first test change [] = []
change_first test change (u ∷ us) =
    if test u then change u ∷ us else u ∷ change_first test change us

-- `slices.Replace` at the first result for the operation.
unfoldable pub replace_first : ProgressResult → List ProgressResult → List ProgressResult
replace_first p [] = []
replace_first p (q ∷ qs) =
    if same_operation q.operation p.operation then p ∷ qs else q ∷ replace_first p qs

abbrev with_progress : ProgressResult → List ProgressResult → List ProgressResult
unfolding replace_first
with_progress p ps =
    if any (λ q. same_operation q.operation p.operation) ps
    then replace_first p ps
    else ps ++ p ∷ []

abbrev given : Option Text → Text → Text
given none old = old
given (some new) old = new

abbrev given_version : Text → Text → Text
given_version new old = if is_empty new then old else new

abbrev with_documents : Option Text → Option Text → Resource → Resource
with_documents properties read_only r = record r {
  properties = given properties r.properties;
  read_only_properties = given read_only r.read_only_properties;
}

unfoldable pub progressed : ResourceProgress → ResourceUpdate → ResourceUpdate
unfolding with_progress
progressed m u = record u {
  state = m.resource_state;
  start_ts = m.resource_start_ts;
  modified_ts = m.resource_modified_ts;
  progress_result = with_progress m.progress u.progress_result;
  most_recent_progress_result = some m.progress;
  resource = with_documents m.resource_properties m.resource_read_only_properties u.resource;
  version = given_version m.version u.version;
}

abbrev pub is_progressing : ResourceProgress → ResourceUpdate → Bool
unfolding should_update_resource_update Uri.ksuid
is_progressing m u =
    is_for (Uri.ksuid m.resource_uri) u
    && should_update_resource_update u.operation m.progress.operation

-- `updateCommandFromProgress`, between loading and storing the command.
unfoldable pub update_from_progress : ResourceProgress → FormaCommand → FormaCommand
unfolding overall_command_state change_first is_progressing progressed
update_from_progress m c =
    let us = change_first (is_progressing m) (progressed m) c.resource_updates in
    record c {
      resource_updates = us;
      start_ts = if c.start_ts == 0 then m.resource_start_ts else c.start_ts;
      modified_ts = m.resource_modified_ts;
      state = overall_command_state us;
    }

unfoldable pub completed : Completion → ResourceUpdate → ResourceUpdate
completed m u = record u {
  state = m.final_state;
  start_ts = m.resource_start_ts;
  modified_ts = m.resource_modified_ts;
  resource = with_documents m.resource_properties m.resource_read_only_properties u.resource;
  version = given_version m.version u.version;
}

-- `markResourceUpdateAsComplete`.
unfoldable pub mark_complete : Completion → FormaCommand → FormaCommand
unfolding overall_command_state change_first completed Uri.ksuid
mark_complete m c =
    let us = change_first (is_for (Uri.ksuid m.resource_uri)) (completed m) c.resource_updates in
    record c {
      resource_updates = us;
      modified_ts = m.resource_modified_ts;
      state = overall_command_state us;
    }

-- Whether the KSUID is in `ksuidSet`.
abbrev pub is_listed : List FormaeUri → Text → Bool
unfolding Uri.ksuid
is_listed uris ksuid = any (λ uri. ite (text_discrete (Uri.ksuid uri) ksuid) true false) uris

unfoldable pub set_states : BulkUpdate → List ResourceUpdate → List ResourceUpdate
unfolding is_listed
set_states m [] = []
set_states m (u ∷ us) =
    let rest = set_states m us in
    (if is_listed m.resource_uris u.resource.ksuid
      then record u { state = m.resource_state; modified_ts = m.resource_modified_ts }
      else u)
    ∷ rest

-- `bulkUpdateResourceState`.
unfoldable pub bulk_update : BulkUpdate → FormaCommand → FormaCommand
unfolding overall_command_state set_states
bulk_update m c =
    let us = set_states m c.resource_updates in
    record c {
      resource_updates = us;
      modified_ts = m.resource_modified_ts;
      state = overall_command_state us;
    }
