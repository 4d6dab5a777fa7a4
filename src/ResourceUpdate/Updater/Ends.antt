-- ===== src/ResourceUpdate/Updater/Ends.antt =====
-- What holds of the outcome of a message in the updater (resource_updater.go), and the functions
-- that run one operation of the plugin.
use formae.Prelude.{
  ◌≡◌, ◌≢◌, ◌⊎◌, inl, inr, refl, ◌∙◌, ◌<◌, ◌≤◌, ℕ, Bool, true, false, not, ◌&&◌, Option, none, some,
  Text, length, any, arith, Bool-cases, Option-cases, is_empty,
}
use formae.Plugin.Progress.{
  Operation, ProgressResult, finished_successfully as is_successful, failed,
}
use formae.ResourceUpdate.Updater.Handlers.{is_terminal}
use formae.ResourceUpdate.{OperationType, UpdateState, CommandSource, ResourceUpdate}
use formae.ResourceUpdate.Progress.{
  is_sync, is_delete, record_progress, update_state, mark_as_failed, mark_as_success, reject,
  required_operations,
}
use formae.ResourceUpdate.Progress.State.{next_state-failed}
use formae.ResourceUpdate.Progress.Record.{record_progress-state, record_progress-any}
use formae.ResourceUpdate.Updater.{
  State, World, Timeout, Timeout, Outcome, ends, waits, operator_missing, fails, succeeds,
  persisted_as, persist, on_success, recorded, handle_progress, is_discovery, is_synchronizing,
  is_read_operation, current_operation,
}

-- A plugin operation has failed for good before as many results were recorded as the update requires,
-- and the update is left in progress.
pub record IsCutShort (u : ResourceUpdate) : Type 0 where
  pub left : u.state ≡ UpdateState.in_progress
  pub missing : length u.progress_result < length (required_operations u.operation)
  pub one_failed : any failed u.progress_result ≡ true

-- The state of the update that goes with the state in which the updater ends.
abbrev pub Matches : State → ResourceUpdate → Type 0
Matches State.finished_successfully u = u.state ≡ UpdateState.success
Matches State.rejected u = u.state ≡ UpdateState.rejected
Matches State.finished_with_error u = (u.state ≡ UpdateState.failed) ⊎ IsCutShort u
Matches _ u = Unit {0}

-- After the outcome of a handler something still happens: the actor ends, or a timeout is set. The
-- exception is a delete that could not be started.
abbrev pub Settled : World → Outcome → Type 0
Settled w o =
    (o.fault ≡ true)
    ⊎ (is_terminal o.state ≡ true)
    ⊎ (o.timeout ≢ Timeout.no_timeout)
    ⊎ ((o.state ≡ State.deleting) × (w.plugin Operation.delete ≡ none))

-- The order in which an update goes through the states.
abbrev pub rank : State → ℕ
rank State.initializing = 0
rank State.synchronizing = 1
rank State.deleting = 2
rank State.resolving = 3
rank State.creating = 4
rank State.updating = 4
rank _ = 5

rank-le : (s : State) → rank s ≤ 5
rank-le s = ground arith

-- The outcome of a message in the state `s`.
pub record Ends (w : World) (s : State) (o : Outcome) : Type 0 where
  pub matches : Matches o.state o.update
  pub settled : Settled w o
  pub later : rank s ≤ rank o.state

le_trans : (a b c : ℕ) → a ≤ b → b ≤ c → a ≤ c
le_trans a b c h k = omega arith

pub Ends-le : (w : World) (s s' : State) (o : Outcome) → rank s ≤ rank s' → Ends w s' o → Ends w s o
Ends-le w s s' o le e = record {
  matches = e.matches;
  settled = e.settled;
  later = le_trans (rank s) (rank s') (rank o.state) le e.later;
}

pub Ends-terminal :
    (w : World) (s s' : State) (u : ResourceUpdate)
    → is_terminal s' ≡ true
    → Matches s' u
    → Ends w s (ends s' u)
Ends-terminal w s s' u t m = record {
  matches = m;
  settled = inr (inl t);
  later = rank_terminal s s' t;
}
  where
    rank_terminal : (s s' : State) → is_terminal s' ≡ true → rank s ≤ rank s'
    rank_terminal s s' t = ground arith

-- What follows a success ends well for every update with this operation and this state.
abbrev Follows : World → State → (ResourceUpdate → Outcome) → OperationType → UpdateState → Type 0
Follows w s next operation st =
    (u : ResourceUpdate) → u.operation ≡ operation → u.state ≡ st → Ends w s (next u)

failed_final :
    (u : ResourceUpdate)
    → u.state ≡ (update_state u).state
    → any failed u.progress_result ≡ true
    → Matches State.finished_with_error u
unfolding update_state
failed_final u s f = elim (next_state-failed u.operation u.progress_result f) [
  | inl e ↦ inl (s ∙ e)
  | inr (e, short) ↦ inr (record { left = s ∙ e; missing = short; one_failed = f })
]

module _ (w : World) (source : CommandSource) where
  pub fails-Ends : (s : State) (u : ResourceUpdate) → Ends w s (fails w source u)
  unfolding fails mark_as_failed
  fails-Ends s u =
      Ends-terminal w s State.finished_with_error (mark_as_failed w.now u) refl (inl refl)

  pub succeeds-Ends : (s : State) (u : ResourceUpdate) → Ends w s (succeeds w source u)
  unfolding succeeds mark_as_success
  succeeds-Ends s u =
      Ends-terminal w s State.finished_successfully (mark_as_success w.now u) refl refl

  pub waits-Ends :
      (s : State) (t : Timeout) (u : ResourceUpdate)
      → Matches s u
      → t ≢ Timeout.no_timeout
      → Ends w s (waits s t u)
  waits-Ends s t u m ne = record { matches = m; settled = inr (inr (inl ne)); later = omega arith }

  persisted_as-Ends :
      (next : ResourceUpdate → Outcome) (s : State) (operation : Operation) (u : ResourceUpdate)
      (o : Option Text)
      → Follows w s next u.operation u.state
      → Ends w s (persisted_as w source next s operation u o)
  unfolding persisted_as
  persisted_as-Ends next s operation u none h = fails-Ends s u
  persisted_as-Ends next s operation u (some hash) h =
      elim (Bool-cases (
        is_synchronizing s
        && (not (is_sync u.operation)
            && (is_read_operation operation
                && (not (is_empty hash) && not (is_delete u.operation)))))) [
                  | inl e ↦ rw e (
                      Ends-terminal w s State.rejected (reject w.now (record u { version = hash }))
                        refl refl)
                  | inr e ↦ rw e (h (record u { version = hash }) refl refl)
                ]

  persist-Ends :
      (next : ResourceUpdate → Outcome) (s : State) (u : ResourceUpdate)
      → current_operation s ≢ none
      → Follows w s next u.operation u.state
      → Ends w s (persist w source next s u (current_operation s))
  unfolding persist
  persist-Ends next s u idle h = elim (Option-cases (current_operation s)) [
    | inl e ↦ absurd (idle e)
    | inr (o, e) ↦ rw e (persisted_as-Ends next s o u (w.persisted o) h)
  ]

  on_success-Ends :
      (next : ResourceUpdate → Outcome) (s : State) (u : ResourceUpdate)
      → current_operation s ≢ none
      → Follows w s next u.operation u.state
      → Ends w s (on_success w source next s u)
  unfolding on_success
  on_success-Ends next s u idle h =
      elim (Bool-cases (is_discovery source && w.filtered u.resource.properties)) [
        | inl e ↦ rw e (succeeds-Ends s u)
        | inr e ↦ rw e (elim (Bool-cases (is_discovery source)) [
          | inl d ↦ rw d (
              persist-Ends next s
                (record u { resource = record u.resource { label = w.label u.resource } }) idle h)
          | inr d ↦ rw d (persist-Ends next s u idle h)
        ])
      ]

  -- The states in which the updater runs an operation of the plugin.
  abbrev pub IsRunning : State → Type 0
  IsRunning s = ((u : ResourceUpdate) → Matches s u) × (current_operation s ≢ none)

  recorded-Ends :
      (next : ResourceUpdate → Outcome) (s : State) (m : ProgressResult) (v : ResourceUpdate)
      (ok : Bool)
      → IsRunning s
      → (failed m ≡ true → Matches State.finished_with_error v)
      → (is_successful m ≡ true → Follows w s next v.operation v.state)
      → Ends w s (recorded w source next s m (v, ok))
  unfolding recorded
  recorded-Ends next s m v false (stays, op) f h = fails-Ends s v
  recorded-Ends next s m v true (stays, op) f h = elim (Bool-cases (w.progress_stored m)) [
    | inr e ↦ rw e (fails-Ends s v)
    | inl e ↦ rw e (elim (Bool-cases (is_successful m)) [
      | inl g ↦ rw g (on_success-Ends next s v op (h g))
      | inr g ↦ rw g (elim (Bool-cases (failed m)) [
        | inl k ↦ rw k (Ends-terminal w s State.finished_with_error v refl (f k))
        | inr k ↦ rw k (waits-Ends s operator_missing v (stays v) (λ e. cc))
      ])
    ])
  ]

  recorded_progress-Ends :
      (next : ResourceUpdate → Outcome) (s : State) (u : ResourceUpdate) (m : ProgressResult)
      → IsRunning s
      → (is_successful m ≡ true
          → let u' = (record_progress w.update_properties m u).0 in
            Follows w s next u'.operation u'.state)
      → Ends w s (recorded w source next s m (record_progress w.update_properties m u))
  recorded_progress-Ends next s u m running h =
      recorded-Ends next s m (record_progress w.update_properties m u).0
        (record_progress w.update_properties m u).1 running
        (λ k.
          failed_final (record_progress w.update_properties m u).0
            (record_progress-state w.update_properties m u)
            (record_progress-any w.update_properties m u failed k))
        h

  pub handle_progress-Ends :
      (next : ResourceUpdate → Outcome) (s : State) (u : ResourceUpdate) (m : ProgressResult)
      → IsRunning s
      → (is_successful m ≡ true
          → let u' = (record_progress w.update_properties m u).0 in
            Follows w s next u'.operation u'.state)
      → Ends w s (handle_progress w source next s u m)
  unfolding handle_progress
  handle_progress-Ends next s u m running h = recorded_progress-Ends next s u m running h
