-- ===== src/Tests/Resources.antt =====
-- The properties of resource URIs and of the progress of an update at one bucket.
use formae.Prelude.{
  true, false, Option, none, some, ◌++◌, ◌∷◌, [], Text, codes, refl, ◌≡◌, ◌≢◌, ◌≤◌, ◌<◌, ◌↔◌, ◌⊎◌,
  if◌then◌else◌, is_empty, length, any, Distinct, inl, inr, arith,
}
use formae.Model.Uri.{scheme, new_formae_uri, is_valid, ksuid, property_path}
use formae.Model.Uri.Laws.{IsKsuid, new_formae_uri_round_trip, is_valid_form}
use formae.Plugin.Progress.{Operation, OperationStatus, ErrorCode, ProgressResult, failed}
use formae.ResourceUpdate.{OperationType, UpdateState, ResourceUpdate}
use formae.ResourceUpdate.Progress.{
  update_state, required_operations, find_progress, record_progress,
}
use formae.ResourceUpdate.Progress.State.{
  AllSuccess, update_state-eq-success, update_state-eq-failed,
}
use formae.ResourceUpdate.Progress.Record.{operations, record_progress-find_progress}
use formae.Tests.Samples.{update_of, progress_of}

k1-IsKsuid : IsKsuid (codes "k1")
k1-IsKsuid (inl q) = omega (arith, q)
k1-IsKsuid (inr (inl q)) = omega (arith, q)
k1-IsKsuid (inr (inr n)) = n

new_formae_uri_round_trip_example :
    (ksuid (new_formae_uri (codes "k1") (codes "Arn")) ≡ codes "k1")
    × (property_path (new_formae_uri (codes "k1") (codes "Arn")) ≡ codes "Arn")
    × (is_valid (new_formae_uri (codes "k1") (codes "Arn"))
        ≡ (if is_empty (codes "k1") then false else true))
new_formae_uri_round_trip_example = new_formae_uri_round_trip (codes "k1") (codes "Arn") k1-IsKsuid

is_valid_form_example :
    (ksuid (codes "formae://k1#/") ≢ [])
    × IsKsuid (ksuid (codes "formae://k1#/"))
    × ((codes "formae://k1#/"
          ≡ new_formae_uri (ksuid (codes "formae://k1#/")) (property_path (codes "formae://k1#/")))
        ⊎ (codes "formae://k1#/" ≡ scheme ++ (ksuid (codes "formae://k1#/") ++ codes "#/")))
unfolding is_valid
is_valid_form_example = is_valid_form (codes "formae://k1#/") refl

-- An update whose read was denied.
abbrev denied : ResourceUpdate
denied = record (update_of (codes "a") OperationType.update UpdateState.in_progress []) {
  progress_result = progress_of Operation.read OperationStatus.failure ErrorCode.access_denied ∷ [];
}

update_state-eq-success_example : ((update_state denied).state ≡ UpdateState.success) ↔ (
    (0 < length denied.progress_result)
    × (length (required_operations denied.operation) ≤ length denied.progress_result)
    × AllSuccess denied.progress_result)
update_state-eq-success_example = update_state-eq-success denied

update_state-eq-failed_example : ((update_state denied).state ≡ UpdateState.failed) ↔ (
    (length (required_operations denied.operation) ≤ length denied.progress_result)
    × (any failed denied.progress_result ≡ true))
update_state-eq-failed_example = update_state-eq-failed denied

-- The documents, as given, in place of what `updateProperties` makes of them.
abbrev keep_documents : Text → Text → Option (Text × Text)
keep_documents incoming stored = if is_empty incoming then none else some (incoming, stored)

abbrev updated : ProgressResult
updated = progress_of Operation.update OperationStatus.success ErrorCode.not_set

record_progress-find_progress_example :
    let after = (record_progress keep_documents updated denied).0 in
    (find_progress after Operation.update ≡ some updated)
    × ((o : Operation) → o ≢ Operation.update → find_progress after o ≡ find_progress denied o)
    × (Distinct (operations denied.progress_result) → Distinct (operations after.progress_result))
record_progress-find_progress_example = record_progress-find_progress keep_documents updated denied
