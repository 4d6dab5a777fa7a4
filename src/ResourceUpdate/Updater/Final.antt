-- ===== src/ResourceUpdate/Updater/Final.antt =====
-- The state that a resource update has when its updater (resource_updater.go) ends.
use formae.Prelude.{
  ◌≡◌, inl, inr, refl, ap, subst, ◌∙◌, true, not, ◌&&◌, Option, none, some, List, ◌∷◌, [], arith,
  Bool-cases,
}
use formae.Model.Uri.{FormaeUri}
use formae.Plugin.Progress.{Operation, ProgressResult, finished_successfully as is_successful}
use formae.ResourceUpdate.{OperationType, UpdateState, CommandSource, ResourceUpdate}
use formae.ResourceUpdate.Progress.{
  is_create, is_update, is_sync, requires_delete, find_progress, record_progress, update_state,
  next_state,
}
use formae.ResourceUpdate.Progress.State.{next_state-read}
use formae.ResourceUpdate.Progress.Record.{
  record_progress-operation, record_progress-state, record_progress-first,
}
use formae.ResourceUpdate.Updater.{
  State, World, ends, cache_missing, fails, succeeds, first_result, create, update, next_resolving,
  resolve_from, resolve, next_deleting, delete, next_synchronizing, synchronize,
}
use formae.ResourceUpdate.Updater.Ends.{
  Ends, Ends-le, Ends-terminal, fails-Ends, succeeds-Ends, waits-Ends, handle_progress-Ends,
}
use formae.ResourceUpdate.Updater.Operations.{
  AlwaysEnds, run_operation-Ends, IsRunning-creating, IsRunning-updating, IsRunning-deleting,
  IsRunning-synchronizing,
}

module _ (w : World) (source : CommandSource) where
  create-Ends : AlwaysEnds w source State.creating (create w source)
  unfolding create
  create-Ends u =
      run_operation-Ends w source (succeeds w source) State.creating Operation.create
        (fails w source u) u (find_progress u Operation.create) (IsRunning-creating w source)
        (λ _. fails-Ends w source State.creating u) (succeeds-Ends w source State.creating)

  pub update-Ends : AlwaysEnds w source State.updating (update w source)
  unfolding update
  update-Ends u =
      run_operation-Ends w source (succeeds w source) State.updating Operation.update
        (fails w source u) u (find_progress u Operation.update) (IsRunning-updating w source)
        (λ _. fails-Ends w source State.updating u) (succeeds-Ends w source State.updating)

  next_resolving-Ends : AlwaysEnds w source State.resolving (next_resolving w source)
  unfolding next_resolving
  next_resolving-Ends u = elim (Bool-cases (is_create u.operation)) [
    | inl e ↦ rw e (
        Ends-le w State.resolving State.creating (create w source u) (ground arith) (create-Ends u))
    | inr e ↦ rw e (
        Ends-le w State.resolving State.updating (update w source u) (ground arith) (update-Ends u))
  ]

  resolve_from-Ends :
      (u : ResourceUpdate) (uris : List FormaeUri)
      → Ends w State.resolving (resolve_from w source u uris)
  unfolding resolve_from
  resolve_from-Ends u [] = next_resolving-Ends u
  resolve_from-Ends u (first ∷ rest) = elim (Bool-cases (w.resolve_sent first)) [
    | inl e ↦ rw e (
        waits-Ends w source State.resolving cache_missing
          (record u { remaining_resolvables = rest }) tt (λ e. cc))
    | inr e ↦ rw e (record { matches = tt; settled = inl refl; later = (omega arith) })
  ]

  pub resolve-Ends : (u : ResourceUpdate) → Ends w State.resolving (resolve w source u)
  unfolding resolve
  resolve-Ends u = resolve_from-Ends u u.remaining_resolvables

  pub next_deleting-Ends : AlwaysEnds w source State.deleting (next_deleting w source)
  unfolding next_deleting
  next_deleting-Ends u =
      elim (Bool-cases (not (is_create u.operation) && not (is_update u.operation))) [
        | inl e ↦ rw e (succeeds-Ends w source State.deleting u)
        | inr e ↦ rw e (
            Ends-le w State.deleting State.resolving (resolve w source u) (ground arith)
              (resolve-Ends u))
      ]

  pub delete-Ends : AlwaysEnds w source State.deleting (delete w source)
  unfolding delete
  delete-Ends u =
      run_operation-Ends w source (next_deleting w source) State.deleting Operation.delete
        (ends State.deleting u) u (find_progress u Operation.delete) (IsRunning-deleting w source)
        (λ e. record { matches = tt; settled = inr (inr (inr (refl, e))); later = (omega arith) })
        next_deleting-Ends

  next_synchronizing-Ends :
      (u : ResourceUpdate)
      → (is_sync u.operation ≡ true → u.state ≡ UpdateState.success)
      → Ends w State.synchronizing (next_synchronizing w source u)
  unfolding next_synchronizing
  next_synchronizing-Ends u h = elim (Bool-cases (is_sync u.operation)) [
    | inl e ↦ rw e (Ends-terminal w State.synchronizing State.finished_successfully u refl (h e))
    | inr e ↦ rw e (elim (Bool-cases (requires_delete u.operation)) [
      | inl f ↦ rw f (
          Ends-le w State.synchronizing State.deleting (delete w source u) (ground arith)
            (delete-Ends u))
      | inr f ↦ rw f (
          Ends-le w State.synchronizing State.resolving (resolve w source u) (ground arith)
            (resolve-Ends u))
    ])
  ]

  -- A first result that reports success makes an update that only reads successful.
  first_read :
      (u : ResourceUpdate) (m : ProgressResult)
      → u.progress_result ≡ []
      → is_successful m ≡ true
      → is_sync u.operation ≡ true
      → (record_progress w.update_properties m u).0.state ≡ UpdateState.success
  unfolding update_state
  first_read u m empty g sync =
      record_progress-state w.update_properties m u
      ∙ ap (λ (x : OperationType × List ProgressResult). next_state x.0 x.1)
          (λ i. (
            record_progress-operation w.update_properties m u i,
            record_progress-first w.update_properties m u empty i,
          ))
      ∙ next_state-read u.operation m sync g

  pub synchronize-Ends :
      (u : ResourceUpdate)
      → (is_sync u.operation ≡ true → u.progress_result ≡ [])
      → Ends w State.synchronizing (synchronize w source u)
  unfolding synchronize first_result
  synchronize-Ends u h = go (w.plugin Operation.read)
    where
      go :
          (p : Option ProgressResult)
          → Ends w State.synchronizing (
              first_result w source
                (next_synchronizing w source)
                State.synchronizing
                (fails w source u)
                u
                p)
      go none = fails-Ends w source State.synchronizing u
      go (some m) =
          handle_progress-Ends w source (next_synchronizing w source) State.synchronizing u m
            (IsRunning-synchronizing w source)
            (λ g v o st. next_synchronizing-Ends v (λ sync.
              let s =
                subst (λ o. is_sync o ≡ true)
                  (o ∙ record_progress-operation w.update_properties m u) sync in
              st ∙ first_read u m (h s) g s))
