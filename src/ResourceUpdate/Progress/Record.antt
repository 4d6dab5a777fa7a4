-- ===== src/ResourceUpdate/Progress/Record.antt =====
-- What `RecordProgress` (resource_update.go) keeps of the results recorded before.
use formae.Prelude.{
  ◌≡◌, ◌≢◌, refl, sym, ap, ◌∙◌, Bool, true, false, Option, some, ◌++◌, ◌∷◌, [], List, Text, any,
  find, if◌then◌else◌, arith, In, ◌⊎◌, inl, inr, map, Distinct, Bool-cases,
}
use formae.Plugin.Progress.{Operation, ProgressResult}
use formae.ResourceUpdate.{OperationType, ResourceUpdate}
use formae.ResourceUpdate.Progress.{
  update_state, find_progress, record_progress, update_from_progress, overwrite, same_operation,
  record_result, next_state,
}

abbrev pub operations : List ProgressResult → List Operation
operations ps = map (λ p. p.operation) ps

abbrev lookup : List ProgressResult → Operation → Option ProgressResult
lookup ps o = find (λ p. same_operation p.operation o) ps

abbrev known : List ProgressResult → Operation → Bool
known ps o = any (λ p. same_operation p.operation o) ps

operations-overwrite :
    (m : ProgressResult) (ps : List ProgressResult) → operations (overwrite m ps) ≡ operations ps
unfolding overwrite
operations-overwrite m [] = refl
operations-overwrite m (p ∷ ps) = ground (arith, operations-overwrite m ps)

lookup-overwrite_self :
    (m : ProgressResult) (ps : List ProgressResult)
    → known ps m.operation ≡ true
    → lookup (overwrite m ps) m.operation ≡ some m
unfolding overwrite
lookup-overwrite_self m [] h = cc
lookup-overwrite_self m (p ∷ ps) h = ground (arith, lookup-overwrite_self m ps)

lookup-overwrite_ne :
    (m : ProgressResult) (ps : List ProgressResult) (o : Operation)
    → o ≢ m.operation
    → lookup (overwrite m ps) o ≡ lookup ps o
unfolding overwrite
lookup-overwrite_ne m [] o h = refl
lookup-overwrite_ne m (p ∷ ps) o h = ground (arith, lookup-overwrite_ne m ps o)

lookup-append_self :
    (m : ProgressResult) (ps : List ProgressResult)
    → known ps m.operation ≡ false
    → lookup (ps ++ m ∷ []) m.operation ≡ some m
lookup-append_self m [] h = ground arith
lookup-append_self m (p ∷ ps) h = ground (arith, lookup-append_self m ps)

lookup-append_ne :
    (m : ProgressResult) (ps : List ProgressResult) (o : Operation)
    → o ≢ m.operation
    → lookup (ps ++ m ∷ []) o ≡ lookup ps o
lookup-append_ne m [] o h = ground arith
lookup-append_ne m (p ∷ ps) o h = ground (arith, lookup-append_ne m ps o)

known-false :
    (ps : List ProgressResult) (o : Operation) → known ps o ≡ false → ¬ In o (operations ps)
known-false [] o h m = m
known-false (p ∷ ps) o h m = ground (arith, known-false ps o)

in-operations-append :
    (o : Operation) (m : ProgressResult) (ps : List ProgressResult)
    → In o (operations (ps ++ m ∷ []))
    → In o (operations ps) ⊎ (o ≡ m.operation)
in-operations-append o m [] h = ground arith
in-operations-append o m (p ∷ ps) h = ground (arith, in-operations-append o m ps)

Distinct-append :
    (m : ProgressResult) (ps : List ProgressResult)
    → known ps m.operation ≡ false
    → Distinct (operations ps)
    → Distinct (operations (ps ++ m ∷ []))
Distinct-append m [] h d = ground arith
Distinct-append m (p ∷ ps) h d =
    ground (arith, Distinct-append m ps, in-operations-append p.operation m ps)

module _ (merge : Text → Text → Option (Text × Text)) (m : ProgressResult)
    (ru : ResourceUpdate) where
  abbrev after : ResourceUpdate
  after = (record_progress merge m ru).0

  abbrev stored : List ProgressResult
  stored =
      if known ru.progress_result m.operation
      then overwrite m ru.progress_result
      else ru.progress_result ++ m ∷ []

  update_from_progress-results :
      (r : ResourceUpdate) → (update_from_progress merge m r).0.progress_result ≡ r.progress_result
  unfolding update_from_progress update_state
  update_from_progress-results r = ground arith

  record_progress-results : after.progress_result ≡ stored
  unfolding record_progress
  record_progress-results =
      update_from_progress-results (record_result m ru)
      ∙ elim (Bool-cases (known ru.progress_result m.operation)) [ inl e ↦ rw e | inr e ↦ rw e ]

  stored-lookup :
      (lookup stored m.operation ≡ some m)
      × ((o : Operation) → o ≢ m.operation → lookup stored o ≡ lookup ru.progress_result o)
      × (Distinct (operations ru.progress_result) → Distinct (operations stored))
  stored-lookup = elim (Bool-cases (known ru.progress_result m.operation)) [
    | inl e ↦ rw e (
      lookup-overwrite_self m ru.progress_result e,
      lookup-overwrite_ne m ru.progress_result,
      λ d. rw operations-overwrite d,
    )
    | inr e ↦ rw e (
      lookup-append_self m ru.progress_result e,
      lookup-append_ne m ru.progress_result,
      Distinct-append m ru.progress_result e,
    )
  ]

-- After `RecordProgress` the last result of the recorded operation is the new one, the results of
-- the other operations are as before, and if there was one result for each operation before,
-- there is one now. This holds also where the properties could not be merged.
pub record_progress-find_progress :
    (merge : Text → Text → Option (Text × Text)) (m : ProgressResult) (ru : ResourceUpdate)
    → let after = (record_progress merge m ru).0 in
      (find_progress after m.operation ≡ some m)
      × ((o : Operation) → o ≢ m.operation → find_progress after o ≡ find_progress ru o)
      × (Distinct (operations ru.progress_result) → Distinct (operations after.progress_result))
unfolding find_progress
record_progress-find_progress merge m ru =
    rw (record_progress-results merge m ru) (stored-lookup merge m ru)

-- The state after `RecordProgress` is the one that `updateState` derives from the results.
module _ (merge : Text → Text → Option (Text × Text)) (m : ProgressResult)
    (ru : ResourceUpdate) where
  update_from_progress-state :
      (r : ResourceUpdate)
      → ((update_from_progress merge m r).0.state ≡ (update_state r).state)
        × ((update_from_progress merge m r).0.operation ≡ r.operation)
  unfolding update_from_progress update_state
  update_from_progress-state r = (ground arith, ground arith)

  record_result-operation : (record_result m ru).operation ≡ ru.operation
  unfolding record_result
  record_result-operation = ground arith

  pub record_progress-operation : (record_progress merge m ru).0.operation ≡ ru.operation
  unfolding record_progress
  record_progress-operation =
      (update_from_progress-state (record_result m ru)).1 ∙ record_result-operation

  pub record_progress-state :
      (record_progress merge m ru).0.state ≡ (update_state (record_progress merge m ru).0).state
  unfolding record_progress update_state
  record_progress-state =
      let r = record_result m ru in
      (update_from_progress-state r).0
      ∙ ap (λ (x : OperationType × List ProgressResult). next_state x.0 x.1)
          (λ i. (
            sym (update_from_progress-state r).1 i,
            sym (update_from_progress-results merge m ru r) i,
          ))

  -- A result that is recorded is among the results.
  pub record_progress-any :
      (test : ProgressResult → Bool)
      → test m ≡ true
      → any test (record_progress merge m ru).0.progress_result ≡ true
  unfolding find_progress
  record_progress-any test t =
      find-any test (record_progress merge m ru).0.progress_result t
        (record_progress-find_progress merge m ru).0
    where
      find-any :
          (f : ProgressResult → Bool) (ps : List ProgressResult)
          → f m ≡ true
          → lookup ps m.operation ≡ some m
          → any f ps ≡ true
      find-any f [] t e = cc
      find-any f (p ∷ ps) t e = ground (arith, find-any f ps)

  pub record_progress-first :
      ru.progress_result ≡ [] → (record_progress merge m ru).0.progress_result ≡ m ∷ []
  record_progress-first e = record_progress-results merge m ru ∙ rw e refl
