-- ===== src/ResourceUpdate/Updater/Operations.antt =====
-- resource_updater.go: the operations of an update, started or resumed, lead to an end as well.
use formae.Prelude.{◌≡◌, inl, inr, refl, Option, none, some, Bool-cases}
use formae.Plugin.Progress.{Operation, ProgressResult, has_finished}
use formae.ResourceUpdate.{CommandSource, ResourceUpdate}
use formae.ResourceUpdate.Updater.{
  State, World, Outcome, operator_missing, recover_from_previous_progress, first_result,
  run_operation, after_resume, resume, current_operation,
}
use formae.ResourceUpdate.Updater.Ends.{
  Ends, fails-Ends, waits-Ends, handle_progress-Ends, IsRunning,
}

module _ (w : World) (source : CommandSource) where
  -- The same for a `next` that ends well whatever the update.
  abbrev pub AlwaysEnds : State → (ResourceUpdate → Outcome) → Type 0
  AlwaysEnds s next = (u : ResourceUpdate) → Ends w s (next u)

  first_result-Ends :
      (next : ResourceUpdate → Outcome) (s : State) (e : Outcome) (u : ResourceUpdate)
      (p : Option ProgressResult)
      → IsRunning w source s
      → (p ≡ none → Ends w s e)
      → AlwaysEnds s next
      → Ends w s (first_result w source next s e u p)
  unfolding first_result
  first_result-Ends next s e u none running d h = d refl
  first_result-Ends next s e u (some m) running d h =
      handle_progress-Ends w source next s u m running (λ _ v _ _. h v)

  after_resume-Ends :
      (next : ResourceUpdate → Outcome) (s : State) (u : ResourceUpdate) (p : Option ProgressResult)
      → IsRunning w source s
      → AlwaysEnds s next
      → Ends w s (after_resume w source next s u p)
  unfolding after_resume
  after_resume-Ends next s u none running h = fails-Ends w source s u
  after_resume-Ends next s u (some m) running h = elim (Bool-cases (has_finished m)) [
    | inl e ↦ rw e (handle_progress-Ends w source next s u m running (λ _ v _ _. h v))
    | inr e ↦ rw e (waits-Ends w source s operator_missing u (running.0 u) (λ e. cc))
  ]

  recover-Ends :
      (next : ResourceUpdate → Outcome) (s : State) (u : ResourceUpdate) (m : ProgressResult)
      → IsRunning w source s
      → AlwaysEnds s next
      → Ends w s (recover_from_previous_progress w source next s u m)
  unfolding recover_from_previous_progress
  recover-Ends next s u m running h = elim (Bool-cases (has_finished m)) [
    | inl e ↦ rw e (handle_progress-Ends w source next s u m running (λ _ v _ _. h v))
    | inr e ↦ rw e (after_resume-Ends next s u (resume w source s) running h)
  ]

  pub run_operation-Ends :
      (next : ResourceUpdate → Outcome) (s : State) (operation : Operation) (e : Outcome)
      (u : ResourceUpdate) (p : Option ProgressResult)
      → IsRunning w source s
      → (w.plugin operation ≡ none → Ends w s e)
      → AlwaysEnds s next
      → Ends w s (run_operation w source next s operation e u p)
  unfolding run_operation
  run_operation-Ends next s operation e u (some m) running d h = recover-Ends next s u m running h
  run_operation-Ends next s operation e u none running d h =
      first_result-Ends next s e u (w.plugin operation) running d h

  pub IsRunning-creating : IsRunning w source State.creating
  unfolding current_operation
  IsRunning-creating = ((λ u. tt), λ e. cc)

  pub IsRunning-updating : IsRunning w source State.updating
  unfolding current_operation
  IsRunning-updating = ((λ u. tt), λ e. cc)

  pub IsRunning-deleting : IsRunning w source State.deleting
  unfolding current_operation
  IsRunning-deleting = ((λ u. tt), λ e. cc)

  pub IsRunning-synchronizing : IsRunning w source State.synchronizing
  unfolding current_operation
  IsRunning-synchronizing = ((λ u. tt), λ e. cc)
