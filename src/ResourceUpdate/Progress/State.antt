-- ===== src/ResourceUpdate/Progress/State.antt =====
-- What `updateState` (resource_update.go) makes of the progress results.
use formae.Prelude.{
  refl, ltb, Bool-cases, ◌⊎◌, inl, inr, ◌≡◌, ◌≢◌, true, ◌∷◌, [], List, length, any, ◌<◌, ◌≤◌, arith,
  ◌↔◌,
}
use formae.Plugin.Progress.{ProgressResult, is_success, failed, finished_successfully}
use formae.ResourceUpdate.{OperationType, UpdateState, ResourceUpdate}
use formae.ResourceUpdate.Progress.{
  final_state, next_state, update_state, is_sync, required_operations,
}

abbrev pub AllSuccess : List ProgressResult → Type 0
AllSuccess [] = Unit
AllSuccess (p ∷ ps) = (is_success p.operation_status ≡ true) × AllSuccess ps

final_state-eq-success :
    (acc : UpdateState) (ps : List ProgressResult)
    → (final_state acc ps ≡ UpdateState.success) ↔ ((acc ≡ UpdateState.success) × AllSuccess ps)
unfolding final_state failed
final_state-eq-success acc [] = ground arith
final_state-eq-success acc (p ∷ ps) =
    ground (arith, final_state-eq-success acc ps, final_state-eq-success UpdateState.in_progress ps)

final_state-eq-failed :
    (acc : UpdateState) (ps : List ProgressResult)
    → acc ≢ UpdateState.failed
    → (final_state acc ps ≡ UpdateState.failed) ↔ (any failed ps ≡ true)
unfolding final_state
final_state-eq-failed acc [] ne = ground arith
final_state-eq-failed acc (p ∷ ps) ne =
    ground (arith, final_state-eq-failed acc ps, final_state-eq-failed UpdateState.in_progress ps)

-- `updateState` marks the update successful exactly when some progress is recorded, at least as many
-- results as the operation requires are there, and all of them report success.
pub update_state-eq-success :
    (ru : ResourceUpdate)
    → ((update_state ru).state ≡ UpdateState.success) ↔ (
        (0 < length ru.progress_result)
        × (length (required_operations ru.operation) ≤ length ru.progress_result)
        × AllSuccess ru.progress_result)
unfolding update_state
update_state-eq-success ru = go ru.operation ru.progress_result
  where
    go :
        (operation : OperationType) (ps : List ProgressResult)
        → (next_state operation ps ≡ UpdateState.success)
          ↔ ((0 < length ps) × (length (required_operations operation) ≤ length ps) × AllSuccess ps)
    go operation [] = ground arith
    go operation (p ∷ ps) = ground (arith, final_state-eq-success UpdateState.success (p ∷ ps))

-- `updateState` marks the update failed exactly when at least as many results as the operation
-- requires are there and one of them has failed for good.
pub update_state-eq-failed :
    (ru : ResourceUpdate)
    → ((update_state ru).state ≡ UpdateState.failed) ↔ (
        (length (required_operations ru.operation) ≤ length ru.progress_result)
        × (any failed ru.progress_result ≡ true))
unfolding update_state
update_state-eq-failed ru = go ru.operation ru.progress_result
  where
    go :
        (operation : OperationType) (ps : List ProgressResult)
        → (next_state operation ps ≡ UpdateState.failed)
          ↔ ((length (required_operations operation) ≤ length ps) × (any failed ps ≡ true))
    go operation [] = ground arith
    go operation (p ∷ ps) =
        ground (arith, final_state-eq-failed UpdateState.success (p ∷ ps) (λ e. cc))

-- With a failure among the results the update has failed, or is in progress with too few results.
pub next_state-failed :
    (operation : OperationType) (ps : List ProgressResult)
    → any failed ps ≡ true
    → (next_state operation ps ≡ UpdateState.failed)
      ⊎ ((next_state operation ps ≡ UpdateState.in_progress)
          × (length ps < length (required_operations operation)))
unfolding next_state
next_state-failed operation [] f = cc
next_state-failed operation (p ∷ ps) f =
    elim (Bool-cases (ltb (length (p ∷ ps)) (length (required_operations operation)))) [
      | inl e ↦ inr (rw e refl, ground arith)
      | inr e ↦ inl (rw e ((final_state-eq-failed UpdateState.success (p ∷ ps) (λ q. cc)).1 f))
    ]

pub next_state-read :
    (operation : OperationType) (m : ProgressResult)
    → is_sync operation ≡ true
    → finished_successfully m ≡ true
    → next_state operation (m ∷ []) ≡ UpdateState.success
unfolding next_state final_state failed finished_successfully required_operations
next_state-read OperationType.read m sync g = ground arith
next_state-read OperationType.create m sync g = cc
next_state-read OperationType.update m sync g = cc
next_state-read OperationType.delete m sync g = cc
next_state-read OperationType.replace m sync g = cc

pub next_state-one :
    (operation : OperationType) (m : ProgressResult)
    → 1 < length (required_operations operation)
    → next_state operation (m ∷ []) ≡ UpdateState.in_progress
unfolding next_state
next_state-one operation m several = ground arith
