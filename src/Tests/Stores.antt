-- ===== src/Tests/Stores.antt =====
-- The theorems on the resource persister at an empty table and a created bucket.
use formae.Prelude.{
  ◌≡◌, ap, if_pos, if◌then◌else◌, inl, refl, true, false, Option, none, some, ◌∷◌, [], Text, codes,
  text_discrete,
}
use formae.Model.Uri.{new_formae_uri}
use formae.Model.Resource
use formae.Model.Resource.{Resource}
use formae.Plugin.Progress.{Operation, ProgressResult, operation_discrete}
use formae.ResourceUpdate.{OperationType, ResourceUpdate}
use formae.ResourceUpdate.Progress.{find_progress, same_operation}
use formae.Datastore.Keys.{IsTable}
use formae.ResourcePersister.{
  Tables, Answers, version, loaded, persist, load, handle_call, store_relevant, misses_required,
}
use formae.ResourcePersister.Keys.{handle_call-IsTable}
use formae.ResourcePersister.Stored.{without_patch, IsPersisted, handle_call-IsPersisted}
use formae.Model.Schema.{Schema}
use formae.Plugin.Progress.{OperationStatus, ErrorCode}
use formae.ResourceUpdate.{UpdateState}
use formae.Tests.Samples.{bucket, aws, no_schema, update_of, progress_of}
use formae.Tests.Tables.{ids, table, table-IsFresh, table-identity, table-IsTable}

-- The table has the bucket as it was found; a create brings other properties.
abbrev answers : Option Text → Answers
answers property = record {
  ids = ids;
  secret_safe = λ r. some (record r { properties = codes "{safe}" });
  property = λ r field. property;
  version_text = λ v. codes "v5";
}

abbrev named_schema : Schema
named_schema = record no_schema {
  hints =
      (
        codes "Name",
        record {
          create_only = false;
          persist = false;
          write_only = false;
          required = true;
          required_on_create = false;
        },
      )
      ∷ [];
}

abbrev named : Resource
named = record (bucket (codes "a")) { schema = named_schema }

abbrev safe : Resource
safe = record named { properties = codes "{safe}" }

abbrev creation : ProgressResult
creation = progress_of Operation.create OperationStatus.success ErrorCode.not_set

abbrev created : ResourceUpdate
created = record (update_of (codes "a") OperationType.create UpdateState.in_progress []) {
  resource = named;
  progress_result = creation ∷ [];
}

abbrev tables : Tables
tables = record { resources = table; targets = [] }

same_operation_refl : (o : Operation) → same_operation o o ≡ true
same_operation_refl o = if_pos (operation_discrete o o) refl true false

creation_found : find_progress created Operation.create ≡ some creation
unfolding find_progress
creation_found = ap (λ b. if b then some creation else none) (same_operation_refl Operation.create)

handle_call-IsPersisted_example :
    IsPersisted (answers (some (codes "x"))) (without_patch safe) table (
      handle_call
        (answers (some (codes "x")))
        (persist (codes "c1") OperationType.create Operation.create created)
        tables)
unfolding misses_required Resource.uri
handle_call-IsPersisted_example =
    handle_call-IsPersisted (answers (some (codes "x"))) (codes "c1") OperationType.create
      Operation.create created creation tables safe (inl refl) creation_found refl refl refl
      table-IsFresh table-identity

handle_call-IsTable_example :
    IsTable
      (handle_call
        (answers (some (codes "x")))
        (persist (codes "c1") OperationType.create Operation.create created)
        tables).0.resources
handle_call-IsTable_example =
    handle_call-IsTable (answers (some (codes "x")))
      (persist (codes "c1") OperationType.create Operation.create created) tables table-IsFresh
      table-IsTable

-- After the create the resource and its target are loaded.
load_test :
    (handle_call
      (answers (some (codes "x")))
      (load (new_formae_uri (codes "a") []))
      (store_relevant
        (answers (some (codes "x")))
        (codes "c1")
        OperationType.create
        Operation.create
        created
        creation
        tables).0).1
    ≡ loaded (without_patch safe) aws
unfolding handle_call store_relevant new_formae_uri text_discrete
load_test = refl

-- Without a required field nothing is stored, and the answer is no error.
missing_field_test :
    store_relevant
      (answers none)
      (codes "c1")
      OperationType.create
      Operation.create
      created
      creation
      tables
    ≡ (tables, version [])
unfolding store_relevant misses_required
missing_field_test = refl
