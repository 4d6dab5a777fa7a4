-- ===== src/Tests/Resolving.antt =====
-- The theorem on the resolve cache at a bucket that was read once.
use formae.Prelude.{
  ◌≡◌, refl, true, Option, none, some, ◌∷◌, [], Text, codes, text_discrete, is_empty, if◌then◌else◌,
}
use formae.Model.Uri.{FormaeUri, new_formae_uri, stripped, ksuid}
use formae.Plugin.Progress.{Operation, OperationStatus, ErrorCode, ProgressResult}
use formae.FormaPersister.Calls.{has_opaque_values}
use formae.Changeset.ResolveCache.{
  Cache, World, resolve_value, value_resolved, failed_to_resolve_value, lookup, handle_message,
  preserve_ref_metadata,
}
use formae.Changeset.ResolveCache.Runs.{IsRead, run, run-IsAnswered}
use formae.Tests.Samples.{bucket, aws, progress_of}

-- An empty document has no value at any path.
abbrev get : Text → Text → Option Text
get document path = if is_empty document then none else some document

abbrev with_metadata : Text → Text → Text
with_metadata stored properties = properties

abbrev arn : FormaeUri
arn = new_formae_uri (codes "a") (codes "Arn")

abbrev reading : ProgressResult → World
reading p = record {
  load_resource = λ u. some (bucket (codes "a"), aws);
  ensure_plugin_operator = λ u. true;
  read_resource = λ r t. some p;
}

abbrev good : World
good = reading (progress_of Operation.read OperationStatus.success ErrorCode.not_set)

abbrev throttled : World
throttled =
    reading (record (progress_of Operation.read OperationStatus.failure ErrorCode.throttling) {
      resource_properties = [];
    })

arn-IsRead : IsRead get with_metadata good arn [] (codes "{}")
unfolding lookup preserve_ref_metadata has_opaque_values
arn-IsRead = record {
  resource = bucket (codes "a");
  target = aws;
  progress = progress_of Operation.read OperationStatus.success ErrorCode.not_set;
  unread = refl;
  was_loaded = refl;
  ensured = refl;
  answered = refl;
  kept = refl;
}

abbrev after_good : Cache
after_good =
    run get with_metadata ((throttled, resolve_value arn) ∷ [])
      (handle_message get with_metadata good (resolve_value arn) []).0

run-IsAnswered_example :
    ((handle_message get with_metadata good (resolve_value arn) []).1
      ≡ value_resolved arn (codes "{}"))
    × (handle_message get with_metadata throttled (resolve_value arn) after_good
        ≡ (after_good, value_resolved arn (codes "{}")))
run-IsAnswered_example =
    run-IsAnswered get with_metadata ((throttled, resolve_value arn) ∷ []) [] good throttled arn arn
      (codes "{}") arn-IsRead refl

-- A value is resolved.
resolved_test :
    (handle_message get with_metadata good (resolve_value arn) []).1
    ≡ value_resolved arn (codes "{}")
unfolding handle_message preserve_ref_metadata has_opaque_values
resolved_test = refl

-- After a read that failed no later read is made, and the value is not resolved.
failed_read_test :
    (handle_message get with_metadata good
      (resolve_value arn)
      (run get with_metadata ((throttled, resolve_value arn) ∷ []) [])).1
    ≡ failed_to_resolve_value arn
unfolding handle_message preserve_ref_metadata has_opaque_values lookup stripped new_formae_uri
    ksuid text_discrete
failed_read_test = refl
