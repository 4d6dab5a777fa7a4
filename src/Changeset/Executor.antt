-- ===== src/Changeset/Executor.antt =====
-- changeset_executor.go: the actor that runs a changeset. The rate limiter, the supervisors and the
-- persister answer through `Answers`; what the executor sends is part of the outcome.
pub mod InProgress
pub mod Marked
pub mod Soundness
use formae.Prelude.{
  ℕ, Bool, true, false, not, ◌&&◌, Option, none, some, List, ◌++◌, ◌∷◌, [], Text, ltb, find,
  if◌then◌else◌,
}
use formae.Model.Uri.{FormaeUri}
use formae.ResourceUpdate
use formae.ResourceUpdate.{UpdateState, ResourceUpdate}
use formae.Changeset.Pipeline.{Group, Groups, Pipeline, put, is_in_progress, same_text}
use formae.Changeset.Execution.{Changeset, available_executable_updates, get_executable_updates}
use formae.Changeset.Completion.{
  PipelineResult, updated, group_not_found, update_pipeline, is_complete,
}

pub data State : Type 0 where
  not_started processing finished_with_error finished_successfully : State

-- The answers while one message is handled, and the orders in which Go ranges over the groups. A
-- supervisor that does not start an updater and a message that cannot be sent are one failure.
pub record Answers : Type 0 where
  pub cache_started : Bool
  pub tokens : Text → ℕ → Option ℕ
  pub updater_started : ResourceUpdate → Bool
  pub available_order : List FormaeUri
  pub choose_order : Text → List FormaeUri
  pub search_order : List FormaeUri

-- The state after a message, the updates sent to their updaters, whether a Resume is scheduled, and the
-- resources that the persister is told to mark as failed.
pub record Outcome : Type 0 where
  pub state : State
  pub changeset : Changeset
  pub sent : List ResourceUpdate
  pub resume_later : Bool
  pub marked_failed : List FormaeUri

-- The loop of `startResourceUpdates`: the updates sent, and whether all were.
unfoldable pub start_resource_updates : Answers → List ResourceUpdate → List ResourceUpdate × Bool
start_resource_updates a [] = ([], true)
start_resource_updates a (u ∷ us) =
    let (sent, ok) = start_resource_updates a us in
    if a.updater_started u then (u ∷ sent, ok) else ([], false)

-- The variables of the loop of `resume`; `ok` is false after an error.
pub record Round : Type 0 where
  pub changeset : Changeset
  pub sent : List ResourceUpdate
  pub finished : Bool
  pub ok : Bool

grant : Answers → Text → ℕ → Option ℕ → Round → Round
unfolding get_executable_updates start_resource_updates
grant a ns updates none r = record r { ok = false }
grant a ns updates (some n) r =
    let (c, us) = get_executable_updates ns n (a.choose_order ns) r.changeset in
    let (sent, ok) = start_resource_updates a us in
    record {
      changeset = c;
      sent = r.sent ++ sent;
      finished = if ltb n updates then false else r.finished;
      ok = ok;
    }

rounds : Answers → List (Text × ℕ) → Round → Round
unfolding grant
rounds a [] r = r
rounds a ((ns, updates) ∷ rest) r =
    let r' = grant a ns updates (a.tokens ns updates) r in
    let after = rounds a rest r' in if r'.ok then after else r'

abbrev pub round_outcome : Round → Outcome
round_outcome r = record {
  state = if r.ok then State.processing else State.finished_with_error;
  changeset = r.changeset;
  sent = r.sent;
  resume_later = r.ok && not r.finished;
  marked_failed = [];
}

unfoldable pub resume : Answers → Changeset → Outcome
unfolding rounds available_executable_updates
resume a c = round_outcome (
    rounds a (available_executable_updates a.available_order c)
      (record { changeset = c; sent = []; finished = true; ok = true }))

-- A handler that only changes the state.
abbrev pub go_to : State → Changeset → Outcome
go_to s c = record { state = s; changeset = c; sent = []; resume_later = false; marked_failed = [] }

unfoldable pub start : Answers → Changeset → Outcome
unfolding resume is_complete
start a c =
    if a.cache_started
    then (if is_complete c then go_to State.finished_with_error c else resume a c)
    else go_to State.finished_with_error c

-- The update that has finished: the first one in progress with the URI.
abbrev pub is_finished_one : FormaeUri → ResourceUpdate → Bool
is_finished_one uri u = same_text (ResourceUpdate.uri u) uri && is_in_progress u

abbrev pub found_in :
    FormaeUri
    → Option ResourceUpdate
    → Option (FormaeUri × ResourceUpdate)
    → Option (FormaeUri × ResourceUpdate)
found_in k (some u) rest = some (k, u)
found_in k none rest = rest

unfoldable pub find_finished :
    FormaeUri → Groups → List FormaeUri → Option (FormaeUri × ResourceUpdate)
find_finished uri h [] = none
find_finished uri h (k ∷ ks) =
    found_in k (find (is_finished_one uri) (h k).updates) (find_finished uri h ks)

-- `finishedUpdate.State = message.State`, in the group where it was found.
unfoldable pub set_finished : FormaeUri → UpdateState → List ResourceUpdate → List ResourceUpdate
set_finished uri s [] = []
set_finished uri s (u ∷ us) =
    if is_finished_one uri u then record u { state = s } ∷ us else u ∷ set_finished uri s us

abbrev pub mark_finished : FormaeUri → UpdateState → FormaeUri → Groups → Groups
unfolding set_finished
mark_finished uri s k h = put h k (record (h k) { updates = set_finished uri s (h k).updates })

abbrev pub uris : List ResourceUpdate → List FormaeUri
unfolding ResourceUpdate.uri
uris [] = []
uris (u ∷ us) = ResourceUpdate.uri u ∷ uris us

-- What follows UpdatePipeline.
unfoldable pub after_pipeline : Answers → Changeset → Option PipelineResult → Option Outcome
unfolding resume is_complete
after_pipeline a c none = none
after_pipeline a c (some (group_not_found k)) = some (go_to State.finished_with_error c)
after_pipeline a c (some (updated c' failed)) =
    some (record (if is_complete c' then go_to State.finished_successfully c' else resume a c') {
      marked_failed = uris failed;
    })

unfoldable pub finish_found :
    Answers
    → UpdateState
    → FormaeUri
    → Changeset
    → Option (FormaeUri × ResourceUpdate)
    → Option Outcome
unfolding after_pipeline update_pipeline
finish_found a s uri c none = some (go_to State.processing c)
finish_found a s uri c (some (k, u)) =
    let c' = record c {
      pipeline = record (c.pipeline) { groups = mark_finished uri s k c.pipeline.groups };
    } in
    after_pipeline a c' (update_pipeline c' (record u { state = s }))

-- `none` means that the search for dependents ran out of fuel.
unfoldable pub resource_update_finished :
    Answers → FormaeUri → UpdateState → Changeset → Option Outcome
unfolding finish_found find_finished
resource_update_finished a uri s c =
    finish_found a s uri c (find_finished uri c.pipeline.groups a.search_order)
