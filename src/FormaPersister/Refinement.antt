-- ===== src/FormaPersister/Refinement.antt =====
-- The abstract view of a command: per resource an operation and a state, without order, timestamps and
-- documents; and the changes of the persister (forma_command_persister.go) as changes of the view.
use formae.Prelude.{
  ◌≡◌, refl, ap, ◌∙◌, Bool, true, false, ◌&&◌, Option, none, some, List, ◌∷◌, [], Text, ite,
  text_discrete, arith, if◌then◌else◌,
}
use formae.Model.Uri
use formae.ResourceUpdate.{OperationType, UpdateState, ResourceUpdate}
use formae.FormaPersister.{
  FormaCommand, ResourceProgress, Completion, BulkUpdate, is_for, is_progressing, is_listed,
  should_update_resource_update, change_first, progressed, completed, set_states,
  update_from_progress, mark_complete, bulk_update,
}

-- For a KSUID what the first update of the command for it does, and how far it is.
abbrev pub View : Type 0
View = Text → Option (OperationType × UpdateState)

unfoldable pub view : List ResourceUpdate → View
view [] k = none
view (u ∷ us) k = if is_for k u then some (u.operation, u.state) else view us k

abbrev pub ksuids : List ResourceUpdate → List Text
ksuids [] = []
ksuids (u ∷ us) = u.resource.ksuid ∷ ksuids us

-- A view with another state for one KSUID, where the test on the operation holds.
abbrev pub set_state :
    (OperationType → Bool)
    → UpdateState
    → Option (OperationType × UpdateState)
    → Option (OperationType × UpdateState)
set_state test s none = none
set_state test s (some (o, t)) = some (o, (if test o then s else t))

abbrev pub put_state : Text → (OperationType → Bool) → UpdateState → View → View
put_state k test s v j = if ite (text_discrete k j) true false then set_state test s (v j) else v j

-- What a change does to an update: it keeps the resource and the operation.
abbrev Keeps : UpdateState → (ResourceUpdate → ResourceUpdate) → Type 0
Keeps s change =
    (u : ResourceUpdate)
    → ((change u).resource.ksuid ≡ u.resource.ksuid)
      × ((change u).operation ≡ u.operation)
      × ((change u).state ≡ s)

module _ (change : ResourceUpdate → ResourceUpdate) (s : UpdateState) (keeps : Keeps s change) where
  change_first-view :
      (k : Text) (test : OperationType → Bool) (us : List ResourceUpdate) (j : Text)
      → view (change_first (λ u. is_for k u && test u.operation) change us) j
        ≡ put_state k test s (view us) j
  unfolding view change_first
  change_first-view k test [] j = ground arith
  change_first-view k test (u ∷ us) j = ground (arith, keeps u, change_first-view k test us j)

set_states-view :
    (m : BulkUpdate) (us : List ResourceUpdate) (j : Text)
    → view (set_states m us) j ≡ (
        if is_listed m.resource_uris j
        then set_state (λ o. true) m.resource_state (view us j)
        else view us j)
unfolding view set_states
set_states-view m [] j = ground arith
set_states-view m (u ∷ us) j =
    ground (
      arith,
      set_states-view m us j,
      λ (e : u.resource.ksuid ≡ j). ap (is_listed m.resource_uris) e,
    )

progressed-Keeps : (m : ResourceProgress) → Keeps m.resource_state (progressed m)
unfolding progressed
progressed-Keeps m u = (refl, refl, refl)

completed-Keeps : (m : Completion) → Keeps m.final_state (completed m)
unfolding completed
completed-Keeps m u = (refl, refl, refl)

change_first-same :
    (f g : ResourceUpdate → Bool) (change : ResourceUpdate → ResourceUpdate)
    (us : List ResourceUpdate)
    → ((u : ResourceUpdate) → f u ≡ g u)
    → change_first f change us ≡ change_first g change us
unfolding change_first
change_first-same f g change [] h = refl
change_first-same f g change (u ∷ us) h = rw (h u, change_first-same f g change us h) refl

-- Recording progress puts the reported state at the KSUID of the message, if the update found there takes
-- progress of that operation; marking an update as complete puts its final state there; a bulk
-- update puts its state at every listed KSUID. No other resource changes in the view of the command, and
-- no operation changes.
pub changes-Refine :
    (c : FormaCommand) (j : Text)
    → ((m : ResourceProgress)
        → view (update_from_progress m c).resource_updates j
          ≡ put_state
              (Uri.ksuid m.resource_uri)
              (λ o. should_update_resource_update o m.progress.operation)
              m.resource_state
              (view c.resource_updates)
              j)
      × ((m : Completion)
          → view (mark_complete m c).resource_updates j
            ≡ put_state
                (Uri.ksuid m.resource_uri)
                (λ o. true)
                m.final_state
                (view c.resource_updates)
                j)
      × ((m : BulkUpdate)
          → view (bulk_update m c).resource_updates j ≡ (
              if is_listed m.resource_uris j
              then set_state (λ o. true) m.resource_state (view c.resource_updates j)
              else view c.resource_updates j))
unfolding update_from_progress mark_complete bulk_update is_progressing
changes-Refine c j = (
  λ m.
      change_first-view (progressed m) m.resource_state (progressed-Keeps m)
        (Uri.ksuid m.resource_uri) (λ o. should_update_resource_update o m.progress.operation)
        c.resource_updates j,
  λ m.
      ap (λ us. view us j)
        (change_first-same (is_for (Uri.ksuid m.resource_uri))
          (λ u. is_for (Uri.ksuid m.resource_uri) u && true) (completed m) c.resource_updates
          (λ u. and_true (is_for (Uri.ksuid m.resource_uri) u)))
      ∙ change_first-view (completed m) m.final_state (completed-Keeps m) (Uri.ksuid m.resource_uri)
          (λ o. true) c.resource_updates j,
  λ m. set_states-view m c.resource_updates j,
)
  where
    and_true : (b : Bool) → b ≡ (b && true)
    and_true true = refl
    and_true false = refl
