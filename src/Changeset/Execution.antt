-- ===== src/Changeset/Execution.antt =====
-- changeset.go: `GetExecutableUpdates` and `AvailableExecutableUpdates`, the choice of the updates that
-- can run in parallel. Each takes the order in which Go ranges over the groups of the map.
pub mod Safety
pub mod Sorting
pub mod Counting
pub mod Soundness
use formae.Prelude.{
  ℕ, suc, ◌+◌, Bool, true, false, not, ◌&&◌, Option, none, some, List, ◌++◌, ◌∷◌, [], Text,
  text_discrete, ltb, dec_in, ite, if◌then◌else◌, less_text,
}
use formae.Model.Uri.{FormaeUri}
use formae.Model.Resource
use formae.ResourceUpdate
use formae.ResourceUpdate.{UpdateState, ResourceUpdate}
use formae.Changeset.Pipeline.{
  Group, Groups, Pipeline, put, has_running_update, next_update, done, is_not_started, same_text,
  get_resource_update_identifier,
}

-- `tracked` holds the keys of `trackedUpdates`, all of which map to true.
pub record Changeset : Type 0 where
  pub command_id : Text
  pub pipeline : Pipeline
  pub tracked : List Text

-- The variables of the loop of `GetExecutableUpdates`.
pub record Choice : Type 0 where
  pub groups : Groups
  pub tracked : List Text
  pub executable : List ResourceUpdate
  pub total : ℕ

abbrev pub is_empty_list : List FormaeUri → Bool
is_empty_list [] = true
is_empty_list (_ ∷ _) = false

abbrev pub is_tracked : List Text → Text → Bool
is_tracked tracked key = ite (dec_in text_discrete key tracked) true false

-- `nextUpdate.State = InProgress`, on the object that `NextUpdate` returned.
unfoldable pub start_next : List ResourceUpdate → List ResourceUpdate
start_next [] = []
start_next (u ∷ us) =
    if is_not_started u
    then record u { state = UpdateState.in_progress } ∷ us
    else u ∷ start_next us

-- The group is not blocked: none of its updates runs, and it waits for no other group.
unfoldable pub is_ready : Group → Bool
unfolding has_running_update done
is_ready g = not (has_running_update g) && (is_empty_list g.upstream && not (done g))

choose : Text → ℕ → FormaeUri → Option ResourceUpdate → Choice → Choice
unfolding start_next
choose namespace max k none c = c
choose namespace max k (some u) c =
    if ltb c.total max
      && (same_text (Resource.namespace u.resource) namespace
          && (is_not_started u && not (is_tracked c.tracked (get_resource_update_identifier u))))
    then record {
      groups = put c.groups k (record (c.groups k) { updates = start_next (c.groups k).updates });
      tracked = get_resource_update_identifier u ∷ c.tracked;
      executable = c.executable ++ record u { state = UpdateState.in_progress } ∷ [];
      total = suc c.total;
    }
    else c

visit : Text → ℕ → FormaeUri → Choice → Choice
unfolding choose is_ready next_update
visit namespace max k c =
    if is_ready (c.groups k) then choose namespace max k (next_update (c.groups k)) c else c

choose_all : Text → ℕ → List FormaeUri → Choice → Choice
unfolding visit
choose_all namespace max [] c = c
choose_all namespace max (k ∷ ks) c = choose_all namespace max ks (visit namespace max k c)

-- `sort.Slice` by URI, as an insertion sort.
unfoldable pub insert_by_uri : ResourceUpdate → List ResourceUpdate → List ResourceUpdate
insert_by_uri u [] = u ∷ []
insert_by_uri u (v ∷ vs) =
    if less_text (ResourceUpdate.uri v) (ResourceUpdate.uri u)
    then v ∷ insert_by_uri u vs
    else u ∷ v ∷ vs

unfoldable pub sort_by_uri : List ResourceUpdate → List ResourceUpdate
unfolding insert_by_uri
sort_by_uri [] = []
sort_by_uri (u ∷ us) = insert_by_uri u (sort_by_uri us)

abbrev first_choice : Changeset → Choice
first_choice c = record {
  groups = c.pipeline.groups;
  tracked = c.tracked;
  executable = [];
  total = 0;
}

unfoldable pub get_executable_updates :
    Text → ℕ → List FormaeUri → Changeset → Changeset × List ResourceUpdate
unfolding choose_all sort_by_uri
get_executable_updates namespace max order c =
    let r = choose_all namespace max order (first_choice c) in
    (
      record c { pipeline = record (c.pipeline) { groups = r.groups }; tracked = r.tracked },
      sort_by_uri r.executable,
    )

-- One more for the namespace.
unfoldable pub count_namespace : Text → List (Text × ℕ) → List (Text × ℕ)
count_namespace ns [] = (ns, 1) ∷ []
count_namespace ns ((m, n) ∷ rest) =
    if same_text m ns then (m, suc n) ∷ rest else (m, n) ∷ count_namespace ns rest

count_next : List Text → Option ResourceUpdate → List (Text × ℕ) → List (Text × ℕ)
unfolding count_namespace
count_next tracked none acc = acc
count_next tracked (some u) acc =
    if is_not_started u && not (is_tracked tracked (get_resource_update_identifier u))
    then count_namespace (Resource.namespace u.resource) acc
    else acc

available_from : Changeset → List FormaeUri → List (Text × ℕ) → List (Text × ℕ)
unfolding is_ready next_update count_next
available_from c [] acc = acc
available_from c (k ∷ ks) acc = available_from c ks (
    if is_ready (c.pipeline.groups k)
    then count_next c.tracked (next_update (c.pipeline.groups k)) acc
    else acc)

unfoldable pub available_executable_updates : List FormaeUri → Changeset → List (Text × ℕ)
unfolding available_from
available_executable_updates order c = available_from c order []
