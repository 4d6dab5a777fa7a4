-- ===== src/Changeset/Completion.antt =====
-- changeset.go: `UpdatePipeline`, which takes a finished update out of the pipeline, and
-- `failResourceUpdate`, which carries a failure to everything downstream.
pub mod Removal
pub mod Dropping
pub mod Success
pub mod Cascade
pub mod Failure
pub mod Final
use formae.Prelude.{
  ℕ, zero, suc, Bool, true, false, not, ◌&&◌, ◌||◌, Option, none, some, List, ◌++◌, ◌∷◌, [], Text,
  text_discrete, length, drop, set, get_elem?, any, dec_in, without, ite, if◌then◌else◌,
}
use formae.Model.Uri.{FormaeUri, stripped}
use formae.ResourceUpdate
use formae.ResourceUpdate.{OperationType, UpdateState, ResourceUpdate}
use formae.Changeset.Pipeline.{
  Group, Groups, Pipeline, put, operation_uri, unlink_with, remove_upstream_group, pop, done,
  is_not_started, same_text,
}
use formae.Changeset.Execution.{Changeset}

-- `for _, downstream := range ds { downstream.RemoveUpstreamGroup(upstream) }`
pub remove_from : List FormaeUri → FormaeUri → Groups → Groups
remove_from [] up h = h
remove_from (d ∷ ds) up h = remove_from ds up (remove_upstream_group h d up)

-- The end of a group that is done: its downstream groups no longer wait for it, and its key goes.
unfoldable pub remove_if_done : FormaeUri → Pipeline → Pipeline
unfolding remove_from done
remove_if_done k p =
    if done (p.groups k)
    then record {
      groups = remove_from (p.groups k).downstream k p.groups;
      keys = without text_discrete k p.keys;
    }
    else p

-- The loop `range upstream.DownstreamGroups` reads an array that UnlinkWith shifts under it: `array` is
-- that array, of which `upstream.DownstreamGroups` is a prefix.
record Unblocking : Type 0 where
  groups : Groups
  array : List FormaeUri

shifted : Groups → FormaeUri → List FormaeUri → List FormaeUri
shifted h up array = (h up).downstream ++ drop (length (h up).downstream) array

-- The loop over `downstream.Updates`, with its `break` at the first resolvable that matches.
unlink_updates : FormaeUri → FormaeUri → FormaeUri → List ResourceUpdate → Unblocking → Unblocking
unfolding shifted
unlink_updates uri up d [] s = s
unlink_updates uri up d (u ∷ us) s = unlink_updates uri up d us (
    if any (λ r. same_text (stripped r) uri) u.remaining_resolvables
    then (let h = unlink_with s.groups d up in record { groups = h; array = shifted h up s.array })
    else s)

unblock_at : FormaeUri → FormaeUri → Option FormaeUri → Unblocking → Unblocking
unfolding unlink_updates
unblock_at uri up none s = s
unblock_at uri up (some d) s = unlink_updates uri up d (s.groups d).updates s

unblock_from : FormaeUri → FormaeUri → (left index : ℕ) → Unblocking → Unblocking
unfolding unblock_at
unblock_from uri up zero i s = s
unblock_from uri up (suc left) i s =
    unblock_from uri up left (suc i) (unblock_at uri up (get_elem? s.array i) s)

abbrev is_change : OperationType → Bool
is_change OperationType.create = true
is_change OperationType.update = true
is_change _ = false

unfoldable pub unblock_downstream : ResourceUpdate → FormaeUri → Groups → Groups
unfolding unblock_from
unblock_downstream update k h =
    if is_change update.operation
    then (unblock_from (ResourceUpdate.uri update) k (length (h k).downstream) 0
        (record { groups = h; array = (h k).downstream })).groups
    else h

unfoldable pub complete_success : ResourceUpdate → FormaeUri → Pipeline → Pipeline
unfolding unblock_downstream remove_if_done pop
complete_success update k p =
    remove_if_done k (record p { groups = unblock_downstream update k (pop p.groups k update) })

-- The variables of `recursivelyFailDependencies`.
pub record Failing : Type 0 where
  pub groups : Groups
  pub failed : List ResourceUpdate
  pub visited : List FormaeUri

abbrev and_then : Option Failing → (Failing → Option Failing) → Option Failing
and_then none f = none
and_then (some s) f = f s

-- `downstreamUpdate.State = Failed`, on the update with index `i` of the group.
abbrev pub fail_at : Groups → FormaeUri → ℕ → ResourceUpdate → Groups
fail_at h d i u =
    put h d
      (record (h d) { updates = set (h d).updates i (record u { state = UpdateState.failed }) })

-- The loops over the updates of a downstream group and over the downstream groups; `rec` is the call
-- of `recursivelyFailDependencies`.
pub fail_update :
    (ResourceUpdate → Failing → Option Failing)
    → FormaeUri
    → ℕ
    → Option ResourceUpdate
    → Failing
    → Option Failing
fail_update rec d i none s = some s
fail_update rec d i (some u) s =
    if is_not_started u
    then rec (record u { state = UpdateState.failed })
        (record s {
          groups = fail_at s.groups d i u;
          failed = s.failed ++ record u { state = UpdateState.failed } ∷ [];
        })
    else some s

pub fail_updates :
    (ResourceUpdate → Failing → Option Failing)
    → FormaeUri
    → (left index : ℕ) → Failing
    → Option Failing
unfolding fail_update
fail_updates rec d zero i s = some s
fail_updates rec d (suc left) i s =
    and_then (fail_update rec d i (get_elem? (s.groups d).updates i) s)
      (fail_updates rec d left (suc i))

pub fail_groups :
    (ResourceUpdate → Failing → Option Failing) → List FormaeUri → Failing → Option Failing
unfolding fail_updates
fail_groups rec [] s = some s
fail_groups rec (d ∷ ds) s =
    and_then (fail_updates rec d (length (s.groups d).updates) 0 s) (fail_groups rec ds)

-- `none` means that the fuel ran out.
pub fail_dependencies : ℕ → List FormaeUri → ResourceUpdate → Failing → Option Failing
unfolding fail_groups
fail_dependencies zero keys update s = none
fail_dependencies (suc fuel) keys update s =
    let k = operation_uri update in
    ite (dec_in text_discrete k s.visited) (some s) (
      ite (dec_in text_discrete k keys)
        (fail_groups (fail_dependencies fuel keys) (s.groups k).downstream
          (record s { visited = k ∷ s.visited }))
        (some (record s { visited = k ∷ s.visited })))

-- `append(failedUpdates, failedUpdate)`
abbrev pub with_source : ResourceUpdate → Option Failing → Option Failing
with_source update none = none
with_source update (some s) = some (record s { failed = s.failed ++ update ∷ [] })

unfoldable pub fail_resource_update : Pipeline → ResourceUpdate → Option Failing
unfolding fail_dependencies
fail_resource_update p update = with_source update (
    fail_dependencies (suc (suc (length p.keys))) p.keys update
      (record { groups = p.groups; failed = []; visited = [] }))

-- Pop a failed update from its group, if that is still in the map.
pub pop_one : ResourceUpdate → Pipeline → Pipeline
unfolding remove_if_done pop
pop_one u p =
    let k = operation_uri u in
    ite (dec_in text_discrete k p.keys) (remove_if_done k (record p { groups = pop p.groups k u }))
      p

pub pop_failed : List ResourceUpdate → Pipeline → Pipeline
unfolding pop_one
pop_failed [] p = p
pop_failed (u ∷ us) p = pop_failed us (pop_one u p)

abbrev pub after_failing :
    FormaeUri → Pipeline → Option Failing → Option (Pipeline × List ResourceUpdate)
after_failing k p none = none
after_failing k p (some s) =
    some (remove_if_done k (pop_failed s.failed (record p { groups = s.groups })), s.failed)

unfoldable pub complete_failure :
    ResourceUpdate → FormaeUri → Pipeline → Option (Pipeline × List ResourceUpdate)
unfolding pop fail_resource_update pop_failed remove_if_done
complete_failure update k p =
    let p1 = record p { groups = pop p.groups k update } in
    after_failing k p1 (fail_resource_update p1 update)

pub data PipelineResult : Type 0 where
  updated : Changeset → List ResourceUpdate → PipelineResult
  group_not_found : FormaeUri → PipelineResult

abbrev pub with_pipeline : Changeset → Pipeline → Changeset
with_pipeline c p = record c { pipeline = p }

abbrev pub with_failed : Changeset → Option (Pipeline × List ResourceUpdate) → Option PipelineResult
with_failed c none = none
with_failed c (some (p, failed)) = some (PipelineResult.updated (with_pipeline c p) failed)

unfoldable pub complete :
    Changeset → ResourceUpdate → FormaeUri → UpdateState → Option PipelineResult
unfolding complete_success complete_failure
complete c update k UpdateState.success =
    some (PipelineResult.updated (with_pipeline c (complete_success update k c.pipeline)) [])
complete c update k UpdateState.failed = with_failed c (complete_failure update k c.pipeline)
complete c update k UpdateState.rejected = with_failed c (complete_failure update k c.pipeline)
complete c update k _ = some (PipelineResult.updated c [])

unfoldable pub update_pipeline : Changeset → ResourceUpdate → Option PipelineResult
unfolding complete
update_pipeline c update =
    let k = operation_uri update in
    ite (dec_in text_discrete k c.pipeline.keys) (complete c update k update.state)
      (some (group_not_found k))

-- True with no group left, and with nothing left but failed or rejected updates.
abbrev pub is_dead : ResourceUpdate → Bool
is_dead u = elim u.state [ UpdateState.failed ↦ true | UpdateState.rejected ↦ true | _ ↦ false ]

abbrev pub all_dead : Groups → List FormaeUri → Bool
all_dead h [] = true
all_dead h (k ∷ ks) = if any (λ u. not (is_dead u)) (h k).updates then false else all_dead h ks

unfoldable pub is_complete : Changeset → Bool
is_complete c = all_dead c.pipeline.groups c.pipeline.keys
