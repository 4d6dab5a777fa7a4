-- ===== src/PluginOperator/Handlers/Outcome.antt =====
-- The outcome of each handler (plugin_operator.go) and the report that goes with it.
use formae.Prelude.{
  ◌≡◌, ◌↔◌, inl, inr, refl, Bool, true, false, ◌&&◌, Option, none, some, arith, Option-cases,
  Bool-cases,
}
use formae.Plugin.Progress.{
  ProgressResult, is_recoverable, finished_successfully, failed, has_finished,
}
use formae.PluginOperator.Messages.{
  State, ReadResource, ChangeResource, Request, StatusCheck, ResumeWaitingForResource,
  PluginUpdateData, World, Scheduled, nothing, Reply,
}
use formae.PluginOperator.Handlers.{
  handle_plugin_result, read, create, update, delete, change, resume, plugin_not_found_error,
  new_unforeseen_error, read_progress,
}

-- The requester reads `FinishedSuccessfully`, `Failed` and `HasFinished` off its report; they agree
-- with the operator's next state, and the operator schedules a message exactly if it has not finished.
abbrev pub Agrees : State → Option ProgressResult → Scheduled → Type 0
Agrees state none scheduled = ⊥
Agrees state (some p) scheduled =
    ((finished_successfully p ≡ true) ↔ (state ≡ State.finished_successfully))
    × ((failed p ≡ true) ↔ (state ≡ State.finished_with_error))
    × ((has_finished p ≡ true) ↔ (scheduled ≡ nothing))

abbrev pub AgreesWith : Reply → Type 0
AgreesWith reply = Agrees reply.state reply.report reply.scheduled

handle_plugin_result-Agrees :
    (d : PluginUpdateData) (o : StatusCheck) (w : World) (result : ProgressResult)
    → AgreesWith (handle_plugin_result d o w result)
unfolding handle_plugin_result has_finished
handle_plugin_result-Agrees d o w result = ground arith

change-Agrees : (d : PluginUpdateData) (r : Request) (w : World) → AgreesWith (change d r w)
unfolding change has_finished new_unforeseen_error is_recoverable
change-Agrees d r w = elim (Option-cases w.result) [
  | inl e ↦ rw e (ground arith)
  | inr (result, e) ↦ rw e (handle_plugin_result-Agrees d (StatusCheck.requested r) w result)
]

not_found-Agrees :
    (d : PluginUpdateData) → Agrees State.finished_with_error (some plugin_not_found_error) nothing
unfolding plugin_not_found_error has_finished is_recoverable
not_found-Agrees d = ground arith

unforeseen-Agrees :
    (d : PluginUpdateData)
    → Agrees State.finished_with_error (some (new_unforeseen_error d)) nothing
unfolding new_unforeseen_error has_finished is_recoverable
unforeseen-Agrees d = ground arith

module _ (d : PluginUpdateData) (w : World) where
  read-Agrees : (r : ReadResource) → AgreesWith (read d r w)
  unfolding read
  read-Agrees r = elim (Bool-cases w.plugin_found) [
    | inl e ↦ rw e (
        handle_plugin_result-Agrees d (StatusCheck.requested (Request.read_resource r)) w
          (read_progress r w))
    | inr e ↦ rw e (not_found-Agrees d)
  ]

  create-Agrees : (c : ChangeResource) → AgreesWith (create d c w)
  unfolding create
  create-Agrees c = elim (Bool-cases w.plugin_found) [
    | inr e ↦ rw e (not_found-Agrees d)
    | inl e ↦ elim (Bool-cases w.converted) [
      | inl f ↦ rw (e, f) (change-Agrees d (Request.create_resource c) w)
      | inr f ↦ rw (e, f) (unforeseen-Agrees d)
    ]
  ]

  abbrev documents_ok : Bool
  documents_ok =
      w.existing_converted && (w.existing_has_metadata && (w.converted && w.has_metadata))

  update-Agrees : (c : ChangeResource) → AgreesWith (update d c w)
  unfolding update
  update-Agrees c = elim (Bool-cases w.plugin_found) [
    | inr e ↦ rw e (not_found-Agrees d)
    | inl e ↦ elim (Bool-cases documents_ok) [
      | inl f ↦ rw (e, f) (change-Agrees d (Request.update_resource c) w)
      | inr f ↦ rw (e, f) (unforeseen-Agrees d)
    ]
  ]

  delete-Agrees : (c : ChangeResource) → AgreesWith (delete d c w)
  unfolding delete
  delete-Agrees c = elim (Bool-cases w.plugin_found) [
    | inl e ↦ rw e (change-Agrees d (Request.delete_resource c) w)
    | inr e ↦ rw e (not_found-Agrees d)
  ]

-- Whatever the plugin and the rest of the outside answer, `read`, `create`, `update` and `delete`
-- report a success exactly if the operator goes to FinishedSuccessfully, a final failure exactly if it
-- goes to FinishedWithError, and a finished result exactly if no retry or status check is scheduled.
pub call_handlers-Agree :
    (d : PluginUpdateData) (w : World)
    → ((r : ReadResource) → AgreesWith (read d r w))
      × ((c : ChangeResource) → AgreesWith (create d c w))
      × ((c : ChangeResource) → AgreesWith (update d c w))
      × ((c : ChangeResource) → AgreesWith (delete d c w))
call_handlers-Agree d w = (read-Agrees d w, create-Agrees d w, update-Agrees d w, delete-Agrees d w)

-- `resume` reports like the other handlers where the plugin is found, but where it is not found the
-- operator goes to FinishedWithError and reports a result that is not finished.
pub resume-Agrees :
    (d : PluginUpdateData) (m : ResumeWaitingForResource) (w : World)
    → (w.plugin_found ≡ true → AgreesWith (resume d m w))
      × (w.plugin_found ≡ false
          → ((resume d m w).state ≡ State.finished_with_error)
            × ((p : ProgressResult) → (resume d m w).report ≡ some p → has_finished p ≡ false))
unfolding resume has_finished
resume-Agrees d m w = (found, λ e. rw e (refl, λ p h. ground arith))
  where
    found : w.plugin_found ≡ true → AgreesWith (resume d m w)
    found e = elim (Option-cases w.result) [
      | inl f ↦ rw (e, f) (unforeseen-Agrees (record d { attempts = m.previous_attempts }))
      | inr (result, f) ↦
          rw (e, f)
            (handle_plugin_result-Agrees (record d { attempts = m.previous_attempts })
              (StatusCheck.checked m.request) w result)
    ]
