-- ===== src/Changeset/Completion/Success.antt =====
-- UpdatePipeline (changeset.go) for an update that succeeded.
use formae.Prelude.{In}
use formae.ResourceUpdate.{ResourceUpdate}
use formae.Changeset.Pipeline.{Pipeline, operation_uri, pop}
use formae.Changeset.Invariant.{IsSound, IsSoundFor, Finishing, IsRemoved, IsRemoved-IsSound}
use formae.Changeset.Completion.{complete_success, unblock_downstream}
use formae.Changeset.Completion.Removal.{unblock_downstream-Loosens}
use formae.Changeset.Completion.Dropping.{Names, pop-Emptied, remove_if_done-IsRemoved}

-- When the update of a group of a pipeline that is otherwise sound succeeds, exactly its group is removed: its key goes, no group of
-- the map waits for it any more and every other wait stays, the other groups keep their updates, and
-- the pipeline is sound again. This holds although the loop over the downstream groups shifts the array
-- that it ranges over.
pub complete_success-IsRemoved :
    (update : ResourceUpdate) (p : Pipeline)
    → IsSoundFor (Finishing (operation_uri update)) p
    → In (operation_uri update) p.keys
    → Names p update
    → IsRemoved (operation_uri update) p (complete_success update (operation_uri update) p)
      × IsSound (complete_success update (operation_uri update) p)
unfolding complete_success
complete_success-IsRemoved update p sound m n =
    let k = operation_uri update in
    let h1 = pop p.groups k update in
    let removed =
      remove_if_done-IsRemoved k p h1 (unblock_downstream update k h1) sound.linked
        (pop-Emptied p update n) (unblock_downstream-Loosens update k h1) in
    (removed, IsRemoved-IsSound k p _ removed sound)
