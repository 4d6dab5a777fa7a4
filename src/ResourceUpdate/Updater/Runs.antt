-- ===== src/ResourceUpdate/Updater/Runs.antt =====
-- The runs of an updater (resource_updater.go), and what it reports at their end.
use formae.Prelude.{
  ◌≡◌, ◌⊎◌, inl, inr, refl, ap, ◌∙◌, Bool, true, some, [], List, arith, length, ◌<◌,
}
use formae.Model.Uri.{FormaeUri}
use formae.Plugin.Progress.{
  Operation, ProgressResult, failed, finished_successfully as is_successful,
}
use formae.ResourceUpdate
use formae.ResourceUpdate.{OperationType, UpdateState, CommandSource, ResourceUpdate}
use formae.ResourceUpdate.Progress.{
  has_progress, record_progress, required_operations, next_state, update_state,
}
use formae.ResourceUpdate.Progress.State.{next_state-one}
use formae.ResourceUpdate.Progress.Record.{
  record_progress-operation, record_progress-state, record_progress-first,
}
use formae.ResourceUpdate.Updater.{
  State, World, Outcome, recorded, handle_progress, first_result, synchronize, fails,
  next_synchronizing, next_initializing, next_state as updater_next_state,
}
use formae.ResourceUpdate.Updater.Handlers.{Message, start, receive, on_state_change}
use formae.ResourceUpdate.Updater.Ends.{Matches, IsCutShort}
use formae.ResourceUpdate.Updater.Reach.{StartsFresh, start-Ends, receive-Ends}

-- What an updater that starts with the update `u` can come to. Each message meets its own world.
pub data Reached (u : ResourceUpdate) : State → ResourceUpdate → Type 0 where
  started : (w : World) → Reached u (start w u).state (start w u).update
  handled :
      {s : State} {v : ResourceUpdate}
      → (w : World) → (m : Message) → (o : Outcome) → Reached u s v
      → receive w s v m ≡ some o
      → Reached u o.state o.update

Reached-Matches :
    {u : ResourceUpdate} {s : State} {v : ResourceUpdate}
    → StartsFresh u
    → Reached u s v
    → Matches s v
Reached-Matches {u} h (started w) = (start-Ends w u h).matches
Reached-Matches h (handled {s} {v} w m o r e) = (receive-Ends w s v m o e).matches

-- The report of an updater has a final state, or the update was cut short.
pub IsReport : ResourceUpdate → UpdateState → Type 0
IsReport v st =
    (st ≡ UpdateState.success)
    ⊎ (st ≡ UpdateState.rejected)
    ⊎ (st ≡ UpdateState.failed)
    ⊎ ((st ≡ UpdateState.in_progress) × IsCutShort v)

-- An updater that starts, for a read, without results, reports in every run the state success, rejected
-- or failed; or it reports that the update is in progress, where a plugin operation has failed for
-- good before the required number of results was recorded. The reported URI is the update's.
pub on_state_change-IsReport :
    {u : ResourceUpdate} {s : State} {v : ResourceUpdate} (uri : FormaeUri) (st : UpdateState)
    → StartsFresh u
    → Reached u s v
    → on_state_change s v ≡ some (uri, st)
    → (uri ≡ ResourceUpdate.uri v) × IsReport v st
unfolding on_state_change IsReport
on_state_change-IsReport {u} {s} {v} uri st h r e = go s (Reached-Matches h r) e
  where
    go :
        (s : State)
        → Matches s v
        → on_state_change s v ≡ some (uri, st)
        → (uri ≡ ResourceUpdate.uri v) × IsReport v st
    go State.finished_successfully m e = (ground arith, inl (ground arith))
    go State.rejected m e = (ground arith, inr (inl (ground arith)))
    go State.finished_with_error (inl m) e = (ground arith, inr (inr (inl (ground arith))))
    go State.finished_with_error (inr c) e =
        let p = c.left in (ground arith, inr (inr (inr (ground arith, c))))
    go s m e = cc

-- The outcome of a failure that is recorded and stored.
recorded-failed :
    (w : World) (source : CommandSource) (s : State) (next : ResourceUpdate → Outcome)
    (m : ProgressResult) (r : ResourceUpdate × Bool)
    → failed m ≡ true
    → w.progress_stored m ≡ true
    → r.1 ≡ true
    → ((recorded w source next s m r).state ≡ State.finished_with_error)
      × ((recorded w source next s m r).update ≡ r.0)
unfolding recorded failed is_successful
recorded-failed w source s next m (v, ok) f st e = (ground arith, ground arith)

module _ (w : World) (u : ResourceUpdate) (m : ProgressResult)
    (several : 1 < length (required_operations u.operation)) (fresh : u.progress_result ≡ []) where
  abbrev begun : ResourceUpdate
  begun = record u { start_ts = w.now; modified_ts = w.now }

  begins_with_read :
      (operation : OperationType)
      → 1 < length (required_operations operation)
      → next_initializing w u.source operation begun ≡ synchronize w u.source begun
  unfolding next_initializing has_progress required_operations
  begins_with_read OperationType.update n = rw fresh refl
  begins_with_read OperationType.delete n = rw fresh refl
  begins_with_read OperationType.replace n = refl
  begins_with_read OperationType.create n = absurd (ground arith)
  begins_with_read OperationType.read n = absurd (ground arith)

  abbrev pub after_read : ResourceUpdate × Bool
  after_read = record_progress w.update_properties m begun

  after_read-state : after_read.0.state ≡ UpdateState.in_progress
  unfolding update_state
  after_read-state =
      record_progress-state w.update_properties m begun
      ∙ ap (λ (x : OperationType × List ProgressResult). next_state x.0 x.1)
          (λ i. (
            record_progress-operation w.update_properties m begun i,
            record_progress-first w.update_properties m begun fresh i,
          ))
      ∙ next_state-one u.operation m several

  -- An update, delete or replace without results begins with a read. If the read fails for good, and the
  -- failure is recorded and stored, the updater ends with an error and the update in progress.
  pub start-failed_read :
      w.plugin Operation.read ≡ some m
      → failed m ≡ true
      → w.progress_stored m ≡ true
      → after_read.1 ≡ true
      → ((start w u).state ≡ State.finished_with_error)
        × ((start w u).update.state ≡ UpdateState.in_progress)
  unfolding start updater_next_state synchronize first_result handle_progress
  start-failed_read p f st ok =
      let e =
        recorded-failed w u.source State.synchronizing (next_synchronizing w u.source) m after_read
          f st ok in
      let q : start w u
          ≡ recorded w u.source (next_synchronizing w u.source) State.synchronizing m after_read =
        begins_with_read u.operation several
        ∙ ap
            (first_result w u.source (next_synchronizing w u.source) State.synchronizing
              (fails w u.source begun) begun)
            p in
      (
        ap (λ (o : Outcome). o.state) q ∙ e.0,
        ap (λ (o : Outcome). o.update.state) q
            ∙ ap (λ (v : ResourceUpdate). v.state) e.1
            ∙ after_read-state,
      )
