-- ===== src/Tests/Executions.antt =====
-- The execution of a changeset at two buckets, of which the second waits for the first.
use formae.Prelude.{◌↔◌, ◌≡◌, ◌≢◌, ◌⊎◌, true, some, ◌∷◌, [], Text, codes, In, inl, inr, refl}
use formae.Model.Uri.{FormaeUri}
use formae.ResourceUpdate.{UpdateState}
use formae.Changeset.Pipeline.{has_running_update}
use formae.Changeset.Invariant.{IsSound, Open}
use formae.Changeset.Completion.{is_complete}
use formae.Changeset.Execution.{Changeset, get_executable_updates, available_executable_updates}
use formae.Changeset.Execution.Counting.{Counts}
use formae.Changeset.Execution.Soundness.{get_executable_updates-IsSound}
use formae.Changeset.Liveness.{available-IsSound, is_complete-IsSound}
use formae.Changeset.Executor.{Answers, resource_update_finished}
use formae.Changeset.Executor.Soundness.{Continues, resource_update_finished-Continues}
use formae.Tests.Pipelines.{a_key, b_key, two_buckets, two-IsSoundFor}

abbrev two_waiting : Changeset
two_waiting = record {
  command_id = [];
  pipeline = two_buckets UpdateState.not_started;
  tracked = [];
}

two-IsSound : IsSound two_waiting.pipeline
two-IsSound = two-IsSoundFor Open UpdateState.not_started (inl refl) (inl refl)

get_executable_updates-IsSound_example :
    IsSound (get_executable_updates (codes "AWS") 5 (b_key ∷ a_key ∷ []) two_waiting).0.pipeline
get_executable_updates-IsSound_example =
    get_executable_updates-IsSound (codes "AWS") 5 (b_key ∷ a_key ∷ []) two_waiting two-IsSound

not_empty : a_key ∷ b_key ∷ [] ≢ []
not_empty e = cc

available-IsSound_example :
    ((k : FormaeUri) × In k two_waiting.pipeline.keys
      × (has_running_update (two_waiting.pipeline.groups k) ≡ true))
    ⊎ ((ns : Text) × Counts ns (available_executable_updates (a_key ∷ b_key ∷ []) two_waiting))
available-IsSound_example =
    available-IsSound two_waiting (a_key ∷ b_key ∷ []) two-IsSound not_empty (λ k m. m)
      (λ k u e m. m)

is_complete-IsSound_example : (is_complete two_waiting ≡ true) ↔ (two_waiting.pipeline.keys ≡ [])
is_complete-IsSound_example = is_complete-IsSound two_waiting two-IsSound

-- The first bucket is being created.
abbrev two_running : Changeset
two_running = record {
  command_id = [];
  pipeline = two_buckets UpdateState.in_progress;
  tracked = [];
}

-- The limiter grants all, and all updaters start.
abbrev willing : Answers
willing = record {
  cache_started = true;
  tokens = λ ns n. some n;
  updater_started = λ u. true;
  available_order = b_key ∷ [];
  choose_order = λ ns. b_key ∷ [];
  search_order = b_key ∷ a_key ∷ [];
}

willing_order : (k : FormaeUri) → In k (b_key ∷ a_key ∷ []) → In k two_running.pipeline.keys
willing_order k (inl q) = inr (inl q)
willing_order k (inr (inl q)) = inl q
willing_order k (inr (inr n)) = absurd n

resource_update_finished-Continues_example :
    Continues
      (resource_update_finished willing (codes "formae://a#") UpdateState.failed two_running)
resource_update_finished-Continues_example =
    resource_update_finished-Continues willing (codes "formae://a#") UpdateState.failed two_running
      (two-IsSoundFor Open UpdateState.in_progress (inr refl) (inl refl)) willing_order
      (inl (inr (inl refl)))
