-- ===== src/Tests/Updaters.antt =====
-- The theorems on updaters at an update of one bucket.
use formae.Prelude.{true, false, Option, some, [], codes, refl, ◌≡◌, arith}
use formae.Plugin.Progress.{
  Operation, OperationStatus, ErrorCode, ProgressResult, failed, is_recoverable,
}
use formae.ResourceUpdate
use formae.ResourceUpdate.{OperationType, UpdateState, CommandSource, ResourceUpdate}
use formae.ResourceUpdate.Progress.{required_operations, record_progress}
use formae.ResourceUpdate.Updater.{State, World, Outcome, handle_progress, succeeds}
use formae.ResourceUpdate.Updater.Handlers.{progress, start, receive, on_state_change}
use formae.ResourceUpdate.Updater.Ends.{Ends}
use formae.ResourceUpdate.Updater.Reach.{receive-Ends}
use formae.ResourceUpdate.Updater.Runs.{
  started, IsReport, on_state_change-IsReport, start-failed_read,
}
use formae.Tests.Samples.{update_of, progress_of}

-- Each operation of the plugin gives `result`, and everything else succeeds.
abbrev calm : (Operation → Option ProgressResult) → World
calm result = record {
  plugin = result;
  resumed = result;
  progress_stored = λ m. true;
  persisted = λ o. some [];
  filtered = λ t. false;
  label = λ r. r.native_id;
  resolve_sent = λ uri. true;
  resolve_value = λ uri value u. some u;
  update_properties = λ incoming stored. some (incoming, stored);
  now = 7;
}

abbrev denied_read : ProgressResult
denied_read = progress_of Operation.read OperationStatus.failure ErrorCode.access_denied

abbrev created : ProgressResult
created = progress_of Operation.create OperationStatus.success ErrorCode.not_set

abbrev creation : ResourceUpdate
creation = update_of (codes "a") OperationType.create UpdateState.not_started []

abbrev change : ResourceUpdate
change = update_of (codes "a") OperationType.update UpdateState.not_started []

abbrev working : World
working = calm (λ o. some (progress_of o OperationStatus.in_progress ErrorCode.not_set))

abbrev ended : Outcome
unfolding handle_progress succeeds
ended =
    handle_progress working CommandSource.user (succeeds working CommandSource.user) State.creating
      creation created

ended_received : receive working State.creating creation (progress created) ≡ some ended
unfolding receive
ended_received = refl

receive-Ends_example : Ends working State.creating ended
receive-Ends_example =
    receive-Ends working State.creating creation (progress created) ended ended_received

start-failed_read_example :
    ((start (calm (λ o. some denied_read)) change).state ≡ State.finished_with_error)
    × ((start (calm (λ o. some denied_read)) change).update.state ≡ UpdateState.in_progress)
unfolding failed required_operations is_recoverable record_progress
start-failed_read_example =
    start-failed_read (calm (λ o. some denied_read)) change denied_read (ground arith) refl refl
      refl refl refl

abbrev denying : World
denying = calm (λ o. some denied_read)

abbrev ended_early : Outcome
unfolding start
ended_early = start denying change

reported :
    on_state_change ended_early.state ended_early.update
    ≡ some (ResourceUpdate.uri ended_early.update, UpdateState.in_progress)
unfolding on_state_change failed ended_early start is_recoverable required_operations
reported = refl

on_state_change-IsReport_example :
    (ResourceUpdate.uri ended_early.update ≡ ResourceUpdate.uri ended_early.update)
    × IsReport ended_early.update UpdateState.in_progress
unfolding ended_early start
on_state_change-IsReport_example =
    on_state_change-IsReport {u = change} (ResourceUpdate.uri ended_early.update)
      UpdateState.in_progress (λ e. refl) (started denying) reported
