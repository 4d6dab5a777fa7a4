-- ===== src/Tests/Persisters.antt =====
-- The theorems on the persister at a command that replaces one bucket: a delete and a create.
use formae.Prelude.{
  true, false, Option, none, some, List, ◌∷◌, [], codes, refl, ◌≡◌, ◌↔◌, ◌⊎◌, inl, inr,
  text_discrete, if◌then◌else◌,
}
use formae.Model.Uri
use formae.Model.Resource.{Resource}
use formae.ResourceUpdate.{OperationType, UpdateState, ResourceUpdate}
use formae.FormaPersister.{
  FormaCommand, CommandState, ResourceProgress, Completion, BulkUpdate, overall_command_state,
  is_final, update_from_progress, mark_complete, bulk_update, should_update_resource_update,
  is_listed,
}
use formae.FormaPersister.Calls.{
  Datastore, handle_call, mark_resource_update_as_complete, mark_forma_command_as_complete,
  has_opaque_values, store_forma_command, hash_command,
}
use formae.FormaPersister.States.{
  Every, Some, IsFinal, IsConsistent, overall_command_state-cases, store_forma_command-IsConsistent,
}
use formae.FormaPersister.Hashing.{StoredHashed, handle_call-StoredHashed}
use formae.FormaPersister.Consistency.{handle_call-IsConsistent}
use formae.FormaPersister.Refinement.{view, put_state, set_state, changes-Refine}
use formae.FormaPersister.Pairs.{after_first, mark_complete-unfinished}
use formae.Tests.Samples.{bucket, update_of}

abbrev replacement : List ResourceUpdate
replacement =
    update_of (codes "a") OperationType.delete UpdateState.success []
    ∷ update_of (codes "a") OperationType.create UpdateState.not_started []
    ∷ []

abbrev replacing : FormaCommand
replacing = record {
  id = codes "c1";
  resources = [];
  state = CommandState.in_progress;
  start_ts = 1;
  modified_ts = 1;
  resource_updates = replacement;
  client_id = [];
}

-- The create has failed before any result of the plugin.
abbrev create_failed : Completion
create_failed = record {
  command_id = codes "c1";
  resource_uri = codes "formae://a#";
  final_state = UpdateState.failed;
  resource_start_ts = 1;
  resource_modified_ts = 2;
  resource_properties = none;
  resource_read_only_properties = none;
  version = [];
}

mark_complete-unfinished_example :
    (mark_complete create_failed replacing).state ≡ CommandState.in_progress
unfolding after_first Uri.ksuid text_discrete
mark_complete-unfinished_example = mark_complete-unfinished create_failed replacing (inl refl)

overall_command_state-cases_example :
    ((overall_command_state replacement ≡ CommandState.success)
      ↔ Every (λ u. u.state ≡ UpdateState.success) replacement)
    × ((overall_command_state replacement ≡ CommandState.failed) ↔ (
        Every IsFinal replacement
        × Some
            (λ u. (u.state ≡ UpdateState.failed) ⊎ (u.state ≡ UpdateState.rejected))
            replacement))
    × ((overall_command_state replacement ≡ CommandState.in_progress)
        ↔ Some (λ u. is_final u.state ≡ false) replacement)
overall_command_state-cases_example = overall_command_state-cases replacement

abbrev one_bucket : List ResourceUpdate
one_bucket = update_of (codes "a") OperationType.create UpdateState.success [] ∷ []

abbrev no_commands : Datastore
no_commands id = none

no_commands-IsConsistent : IsConsistent no_commands
no_commands-IsConsistent = record {
  at_its_id = λ k c e. absurd (nothing e);
  derived = λ k c e. absurd (nothing e);
}
  where
    nothing : {c : FormaCommand} → none ≡ some c → ⊥
    nothing q = cc

abbrev with_replacing : Datastore
unfolding store_forma_command
with_replacing = store_forma_command replacing no_commands

replacing_derived : CommandState.in_progress ≡ overall_command_state replacement
unfolding overall_command_state
replacing_derived = refl

with_replacing-IsConsistent : IsConsistent with_replacing
unfolding with_replacing store_forma_command
with_replacing-IsConsistent =
    store_forma_command-IsConsistent replacing no_commands no_commands-IsConsistent
      (inr replacing_derived)

-- The transformer keeps the mark of an opaque value and hashes the value itself.
abbrev hash_value : Resource → Option Resource
hash_value r =
    some (record r { properties = codes "{\"$value\":\"5e88\",\"$visibility\":\"Opaque\"}" })

handle_call-IsConsistent_example :
    IsConsistent
      (handle_call hash_value true true
        (mark_resource_update_as_complete create_failed)
        with_replacing).0
handle_call-IsConsistent_example =
    handle_call-IsConsistent hash_value true true (mark_resource_update_as_complete create_failed)
      with_replacing tt with_replacing-IsConsistent

abbrev secret : Resource
secret = record (bucket (codes "a")) {
  properties = codes "{\"$value\":\"pw\",\"$visibility\":\"Opaque\"}";
}

abbrev with_secret : FormaCommand
with_secret = record replacing { resources = secret ∷ bucket (codes "b") ∷ [] }

abbrev holding : Datastore
unfolding store_forma_command
holding = store_forma_command with_secret no_commands

holding-IsConsistent : IsConsistent holding
unfolding holding store_forma_command
holding-IsConsistent =
    store_forma_command-IsConsistent with_secret no_commands no_commands-IsConsistent
      (inr replacing_derived)

handle_call-StoredHashed_example :
    StoredHashed hash_value
      (codes "c1")
      holding
      (handle_call hash_value true true (mark_forma_command_as_complete (codes "c1")) holding).0
unfolding handle_call holding text_discrete hash_command has_opaque_values
handle_call-StoredHashed_example =
    handle_call-StoredHashed hash_value true true (codes "c1") holding holding-IsConsistent refl

-- The value is hashed.
hashed_test :
    hash_command hash_value with_secret
    ≡ some (
      record with_secret {
        resources =
            record secret { properties = codes "{\"$value\":\"5e88\",\"$visibility\":\"Opaque\"}" }
            ∷ bucket (codes "b")
            ∷ [];
      },
      1,
    )
unfolding hash_command has_opaque_values
hashed_test = refl

changes-Refine_example :
    ((m : ResourceProgress)
      → view (update_from_progress m replacing).resource_updates (codes "a")
        ≡ put_state
            (Uri.ksuid m.resource_uri)
            (λ o. should_update_resource_update o m.progress.operation)
            m.resource_state
            (view replacement)
            (codes "a"))
    × ((m : Completion)
        → view (mark_complete m replacing).resource_updates (codes "a")
          ≡ put_state
              (Uri.ksuid m.resource_uri)
              (λ o. true)
              m.final_state
              (view replacement)
              (codes "a"))
    × ((m : BulkUpdate)
        → view (bulk_update m replacing).resource_updates (codes "a") ≡ (
            if is_listed m.resource_uris (codes "a")
            then set_state (λ o. true) m.resource_state (view replacement (codes "a"))
            else view replacement (codes "a")))
changes-Refine_example = changes-Refine replacing (codes "a")
