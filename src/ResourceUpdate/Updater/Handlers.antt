-- ===== src/ResourceUpdate/Updater/Handlers.antt =====
-- The message handlers of the updater (resource_updater.go) and what it reports when it ends.
use formae.Prelude.{Bool, true, false, Option, none, some, Text}
use formae.Model.Uri.{FormaeUri}
use formae.Plugin.Progress.{ProgressResult}
use formae.ResourceUpdate
use formae.ResourceUpdate.{UpdateState, ResourceUpdate}
use formae.ResourceUpdate.Updater.{
  State, World, Outcome, fails, handle_progress, resolve, next_state,
}

-- What the updater receives after its start.
pub data Message : Type 0 where
  progress : ProgressResult → Message
  operator_missing_in_action cache_missing_in_action : Message
  value_resolved : FormaeUri → Text → Message
  failed_to_resolve : FormaeUri → Message

unfoldable pub start : World → ResourceUpdate → Outcome
unfolding next_state
start w u =
    next_state w u.source State.initializing (record u { start_ts = w.now; modified_ts = w.now })

unfoldable pub resource_resolved : World → ResourceUpdate → Option ResourceUpdate → Outcome
unfolding fails resolve
resource_resolved w u none = fails w u.source u
resource_resolved w u (some u') = resolve w u.source u'

-- A state takes the messages that `Init` lists for it; any other is an error of the actor library.
unfoldable pub receive : World → State → ResourceUpdate → Message → Option Outcome
unfolding handle_progress next_state resource_resolved fails
receive w State.deleting u (progress m) =
    some (handle_progress w u.source (next_state w u.source State.deleting) State.deleting u m)
receive w State.creating u (progress m) =
    some (handle_progress w u.source (next_state w u.source State.creating) State.creating u m)
receive w State.updating u (progress m) =
    some (handle_progress w u.source (next_state w u.source State.updating) State.updating u m)
receive w State.deleting u operator_missing_in_action = some (fails w u.source u)
receive w State.creating u operator_missing_in_action = some (fails w u.source u)
receive w State.updating u operator_missing_in_action = some (fails w u.source u)
receive w State.resolving u (value_resolved uri value) =
    some (resource_resolved w u (w.resolve_value uri value u))
receive w State.resolving u cache_missing_in_action = some (fails w u.source u)
receive w State.resolving u (failed_to_resolve uri) = some (fails w u.source u)
receive w s u m = none

abbrev pub is_terminal : State → Bool
is_terminal State.finished_successfully = true
is_terminal State.finished_with_error = true
is_terminal State.rejected = true
is_terminal _ = false

-- The message ResourceUpdateFinished that `onStateChange` sends to the requester.
unfoldable pub on_state_change : State → ResourceUpdate → Option (FormaeUri × UpdateState)
unfolding ResourceUpdate.uri
on_state_change State.finished_successfully u = some (ResourceUpdate.uri u, u.state)
on_state_change State.finished_with_error u = some (ResourceUpdate.uri u, u.state)
on_state_change State.rejected u = some (ResourceUpdate.uri u, u.state)
on_state_change _ u = none
