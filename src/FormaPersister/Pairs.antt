-- ===== src/FormaPersister/Pairs.antt =====
-- What the persister (forma_command_persister.go) leaves of the updates that share a resource, as the delete
-- and the create of a replacement do.
use formae.Prelude.{◌≡◌, inl, inr, false, List, ◌∷◌, [], Text, Bool-cases, if◌then◌else◌}
use formae.Model.Uri
use formae.ResourceUpdate.{ResourceUpdate}
use formae.FormaPersister.{
  FormaCommand, CommandState, Completion, is_final, is_for, change_first, completed, mark_complete,
}
use formae.FormaPersister.States.{Some, overall_command_state-cases}

-- The updates behind the first one for the resource.
unfoldable pub after_first : Text → List ResourceUpdate → List ResourceUpdate
after_first k [] = []
after_first k (u ∷ us) = if is_for k u then us else after_first k us

unfinished-change_first :
    (k : Text) (change : ResourceUpdate → ResourceUpdate) (us : List ResourceUpdate)
    → Some (λ v. is_final v.state ≡ false) (after_first k us)
    → Some (λ v. is_final v.state ≡ false) (change_first (is_for k) change us)
unfolding after_first change_first
unfinished-change_first k change [] h = h
unfinished-change_first k change (u ∷ us) h = elim (Bool-cases (is_for k u)) [
  | inl e ↦ rw e (inr (rw e at h))
  | inr e ↦ rw e (inr (unfinished-change_first k change us (rw e at h)))
]

-- If a command has, behind the first update for a resource, another update that is not final, it is
-- InProgress after any MarkResourceUpdateAsComplete for this resource.
pub mark_complete-unfinished :
    (m : Completion) (c : FormaCommand)
    → Some
        (λ v. is_final v.state ≡ false)
        (after_first (Uri.ksuid m.resource_uri) c.resource_updates)
    → (mark_complete m c).state ≡ CommandState.in_progress
unfolding mark_complete
mark_complete-unfinished m c h =
    (overall_command_state-cases
        (change_first (is_for (Uri.ksuid m.resource_uri)) (completed m) c.resource_updates)).2.1
      (unfinished-change_first (Uri.ksuid m.resource_uri) (completed m) c.resource_updates h)
