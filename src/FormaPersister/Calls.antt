-- ===== src/FormaPersister/Calls.antt =====
-- The calls of the persister (forma_command_persister.go): each loads a command from the datastore,
-- changes it, and stores it again.
use formae.Prelude.{
  ℕ, Bool, ◌&&◌, ◌||◌, Option, none, some, List, ◌∷◌, [], Text, codes, ite, if◌then◌else◌, is_empty,
  has_prefix, text_discrete, ◌+◌, ltb, ◌>>=◌,
}
use formae.Model.Uri.{FormaeUri}
use formae.Model.Resource.{Resource}
use formae.ResourceUpdate.{UpdateState, ResourceUpdate}
use formae.FormaPersister.{
  FormaCommand, ResourceProgress, Completion, BulkUpdate, update_from_progress, mark_complete,
  bulk_update,
}

abbrev pub Datastore : Type 0
Datastore = Text → Option FormaCommand

-- MarkResourcesAsRejected and MarkResourcesAsFailed.
pub record MarkResources : Type 0 where
  pub command_id : Text
  pub resource_uris : List FormaeUri
  pub resource_modified_ts : ℕ

pub data Message : Type 0 where
  store_new_forma_command : FormaCommand → Message
  load_forma_command : Text → Message
  update_resource_progress : ResourceProgress → Message
  mark_resources_as_rejected mark_resources_as_failed : MarkResources → Message
  mark_resource_update_as_complete : Completion → Message
  mark_forma_command_as_complete : Text → Message

-- `err` stands for an error that is returned.
pub data Answer : Type 0 where
  done err : Answer
  loaded : FormaCommand → Answer

unfoldable pub contains : Text → Text → Bool
contains part [] = is_empty part
contains part (c ∷ s) = has_prefix part (c ∷ s) || contains part s

unfoldable pub has_opaque_values : Text → Bool
unfolding contains
has_opaque_values props =
    contains (codes "\"$visibility\"") props && contains (codes "\"Opaque\"") props

unfoldable pub store_forma_command : FormaCommand → Datastore → Datastore
store_forma_command c d k = ite (text_discrete c.id k) (some c) (d k)

-- Whether the datastore can be written, for StoreFormaCommand.
unfoldable pub store : (writable : Bool) → FormaCommand → Datastore → Datastore × Answer
unfolding store_forma_command
store writable c d = if writable then (store_forma_command c d, Answer.done) else (d, Answer.err)

-- GetFormaCommandByCommandID, which fails also for a command that is not there.
unfoldable pub get_forma_command : (readable : Bool) → Text → Datastore → Option FormaCommand
get_forma_command readable id d = if readable then d id else none

unfoldable pub change_command :
    (writable : Bool)
    → (FormaCommand → FormaCommand)
    → Option FormaCommand
    → Datastore
    → Datastore × Answer
unfolding store
change_command writable change none d = (d, Answer.err)
change_command writable change (some c) d = store writable (change c) d

abbrev pub bulk : UpdateState → MarkResources → BulkUpdate
bulk s m = record {
  command_id = m.command_id;
  resource_uris = m.resource_uris;
  resource_state = s;
  resource_modified_ts = m.resource_modified_ts;
}

abbrev answer_loaded : Option FormaCommand → Datastore → Datastore × Answer
answer_loaded none d = (d, Answer.err)
answer_loaded (some c) d = (d, Answer.loaded c)

unfoldable pub store_hashed : Bool → Option (FormaCommand × ℕ) → Datastore → Datastore × Answer
unfolding store
store_hashed writable none d = (d, Answer.err)
store_hashed writable (some (c, n)) d = if ltb 0 n then store writable c d else (d, Answer.done)

module _ (apply_to_resource : Resource → Option Resource) where
  -- A loop of `markFormaCommandAsComplete`: the resources, and how many were hashed.
  unfoldable pub hash_one : Resource → Option (Resource × ℕ)
  unfolding has_opaque_values
  hash_one r =
      if has_opaque_values r.properties
      then (elim (apply_to_resource r) [ none ↦ none | some r' ↦ some (r', 1) ])
      else some (r, 0)

  unfoldable pub hash_resources : List Resource → Option (List Resource × ℕ)
  unfolding hash_one
  hash_resources [] = some ([], 0)
  hash_resources (r ∷ rs) = do
    (r', n) ← hash_one r
    (rs', k) ← hash_resources rs
    some (r' ∷ rs', n + k)

  unfoldable pub hash_updates : List ResourceUpdate → Option (List ResourceUpdate × ℕ)
  unfolding hash_one
  hash_updates [] = some ([], 0)
  hash_updates (u ∷ us) = do
    (r', n) ← hash_one u.resource
    (us', k) ← hash_updates us
    some (record u { resource = r' } ∷ us', n + k)

  -- The command with its resources hashed, and their number.
  unfoldable pub hash_command : FormaCommand → Option (FormaCommand × ℕ)
  unfolding hash_resources hash_updates
  hash_command c = do
    (rs, n) ← hash_resources c.resources
    (us, k) ← hash_updates c.resource_updates
    some (record c { resources = rs; resource_updates = us }, n + k)

  unfoldable pub mark_forma_command_complete :
      Bool → Option FormaCommand → Datastore → Datastore × Answer
  unfolding store_hashed hash_command
  mark_forma_command_complete writable none d = (d, Answer.err)
  mark_forma_command_complete writable (some c) d = store_hashed writable (hash_command c) d

  -- `HandleCall`: the datastore after the call, and the answer.
  unfoldable pub handle_call : (readable writable : Bool) → Message → Datastore → Datastore × Answer
  unfolding store get_forma_command change_command mark_forma_command_complete update_from_progress
      mark_complete bulk_update
  handle_call readable writable (store_new_forma_command c) d = store writable c d
  handle_call readable writable (load_forma_command id) d =
      answer_loaded (get_forma_command readable id d) d
  handle_call readable writable (update_resource_progress m) d =
      change_command writable (update_from_progress m) (get_forma_command readable m.command_id d) d
  handle_call readable writable (mark_resources_as_rejected m) d =
      change_command writable (bulk_update (bulk UpdateState.rejected m))
        (get_forma_command readable m.command_id d) d
  handle_call readable writable (mark_resources_as_failed m) d =
      change_command writable (bulk_update (bulk UpdateState.failed m))
        (get_forma_command readable m.command_id d) d
  handle_call readable writable (mark_resource_update_as_complete m) d =
      change_command writable (mark_complete m) (get_forma_command readable m.command_id d) d
  handle_call readable writable (mark_forma_command_as_complete id) d =
      mark_forma_command_complete writable (get_forma_command readable id d) d
