-- ===== src/ResourceUpdate/Updater/Reach.antt =====
-- The outcomes of the message handlers of the updater (resource_updater.go).
use formae.Prelude.{◌≡◌, inl, inr, subst, true, Option, none, some, [], arith, Bool-cases}
use formae.ResourceUpdate.{OperationType, ResourceUpdate}
use formae.ResourceUpdate.Progress.{is_sync, has_progress}
use formae.ResourceUpdate.Updater.{
  State, World, Outcome, resolve, next_state, next_initializing, synchronize, update, delete,
}
use formae.ResourceUpdate.Updater.Handlers.{
  Message, progress, operator_missing_in_action, cache_missing_in_action, value_resolved,
  failed_to_resolve, start, resource_resolved, receive,
}
use formae.ResourceUpdate.Updater.Ends.{
  Ends, Ends-le, fails-Ends, succeeds-Ends, handle_progress-Ends,
}
use formae.ResourceUpdate.Updater.Operations.{
  IsRunning-creating, IsRunning-updating, IsRunning-deleting,
}
use formae.ResourceUpdate.Updater.Final.{
  resolve-Ends, update-Ends, delete-Ends, synchronize-Ends, next_deleting-Ends,
}

-- Only a read is done after its first result, so it starts with none.
abbrev pub StartsFresh : ResourceUpdate → Type 0
StartsFresh u = is_sync u.operation ≡ true → u.progress_result ≡ []

module _ (w : World) where
  synchronized :
      (u : ResourceUpdate) → StartsFresh u → Ends w State.initializing (synchronize w u.source u)
  synchronized u h =
      Ends-le w State.initializing State.synchronizing (synchronize w u.source u) (ground arith)
        (synchronize-Ends w u.source u h)

  next_initializing-Ends :
      (operation : OperationType) (u : ResourceUpdate)
      → StartsFresh u
      → Ends w State.initializing (next_initializing w u.source operation u)
  unfolding next_initializing
  next_initializing-Ends OperationType.create u h =
      Ends-le w State.initializing State.resolving (resolve w u.source u) (ground arith)
        (resolve-Ends w u.source u)
  next_initializing-Ends OperationType.update u h = elim (Bool-cases (has_progress u)) [
    | inl e ↦ rw e (
        Ends-le w State.initializing State.updating (update w u.source u) (ground arith)
          (update-Ends w u.source u))
    | inr e ↦ rw e (synchronized u h)
  ]
  next_initializing-Ends OperationType.delete u h = elim (Bool-cases (has_progress u)) [
    | inl e ↦ rw e (
        Ends-le w State.initializing State.deleting (delete w u.source u) (ground arith)
          (delete-Ends w u.source u))
    | inr e ↦ rw e (synchronized u h)
  ]
  next_initializing-Ends OperationType.read u h = synchronized u h
  next_initializing-Ends OperationType.replace u h = synchronized u h

  pub start-Ends : (u : ResourceUpdate) → StartsFresh u → Ends w State.initializing (start w u)
  unfolding start next_state
  start-Ends u h =
      next_initializing-Ends u.operation (record u { start_ts = w.now; modified_ts = w.now }) h

  resource_resolved-Ends :
      (u : ResourceUpdate) (r : Option ResourceUpdate)
      → Ends w State.resolving (resource_resolved w u r)
  unfolding resource_resolved
  resource_resolved-Ends u none = fails-Ends w u.source State.resolving u
  resource_resolved-Ends u (some u') = resolve-Ends w u.source u'

  some-Ends : (s : State) {p o : Outcome} → some p ≡ some o → Ends w s p → Ends w s o
  some-Ends s {p} {o} e h = subst (Ends w s) (out e) h
    where
      out : some p ≡ some o → p ≡ o
      out q = cc

  -- When the updater handles a message, then: a final state goes with the state of the update
  -- (FinishedSuccessfully with success, Rejected with rejected, FinishedWithError with failed, or in
  -- progress after a failure that came before the required number of results); the actor has ended,
  -- or a timeout is set, or it waits for a delete that could not be started; and the new state
  -- is not earlier than the old one.
  pub receive-Ends :
      (s : State) (u : ResourceUpdate) (m : Message) (o : Outcome)
      → receive w s u m ≡ some o
      → Ends w s o
  unfolding receive next_state
  receive-Ends State.deleting u (progress m) o e = some-Ends State.deleting e (
      handle_progress-Ends w u.source _ State.deleting u m (IsRunning-deleting w u.source)
        (λ _ v _ _. next_deleting-Ends w u.source v))
  receive-Ends State.creating u (progress m) o e = some-Ends State.creating e (
      handle_progress-Ends w u.source _ State.creating u m (IsRunning-creating w u.source)
        (λ _ v _ _. succeeds-Ends w u.source State.creating v))
  receive-Ends State.updating u (progress m) o e = some-Ends State.updating e (
      handle_progress-Ends w u.source _ State.updating u m (IsRunning-updating w u.source)
        (λ _ v _ _. succeeds-Ends w u.source State.updating v))
  receive-Ends State.deleting u operator_missing_in_action o e =
      some-Ends State.deleting e (fails-Ends w u.source State.deleting u)
  receive-Ends State.creating u operator_missing_in_action o e =
      some-Ends State.creating e (fails-Ends w u.source State.creating u)
  receive-Ends State.updating u operator_missing_in_action o e =
      some-Ends State.updating e (fails-Ends w u.source State.updating u)
  receive-Ends State.resolving u (value_resolved uri value) o e =
      some-Ends State.resolving e (resource_resolved-Ends u (w.resolve_value uri value u))
  receive-Ends State.resolving u cache_missing_in_action o e =
      some-Ends State.resolving e (fails-Ends w u.source State.resolving u)
  receive-Ends State.resolving u (failed_to_resolve uri) o e =
      some-Ends State.resolving e (fails-Ends w u.source State.resolving u)
  receive-Ends s u m o e = cc
