-- ===== src/PluginOperator/Handlers.antt =====
-- plugin_operator.go: the call handlers `read`, `create`, `update`, `delete` and `resume`, the message
-- handlers `status` and `retry`, and `handlePluginResult`, which all of them end in.
pub mod Outcome
pub mod Attempts
use formae.Prelude.{
  ℕ, ◌+◌, Bool, true, false, not, ◌&&◌, Option, none, some, Text, [], ltb, leb, if◌then◌else◌,
}
use formae.Model.Resource
use formae.Plugin.Progress.{
  Operation, OperationStatus, ErrorCode, ProgressResult, is_recoverable, is_failure,
  finished_successfully,
}
use formae.PluginOperator.Messages.{
  State, ReadResource, treat_not_found_as_success, ChangeResource, Request, read_resource,
  create_resource, update_resource, delete_resource, CheckStatus, StatusCheck, requested, checked,
  Retry, ResumeWaitingForResource, PluginUpdateData, ReadResult, World, Scheduled, nothing,
  retry_later, check_later, Reply,
}

-- `resource.ProgressResult{}`
abbrev zero_progress : ProgressResult
zero_progress = record {
  operation = Operation.unset;
  operation_status = OperationStatus.unset;
  request_id = [];
  native_id = [];
  metadata = [];
  resource_type = [];
  resource_properties = [];
  start_ts = 0;
  modified_ts = 0;
  error_code = ErrorCode.not_set;
  status_message = [];
  attempts = 0;
  max_attempts = 0;
}

unfoldable pub plugin_not_found_error : ProgressResult
plugin_not_found_error = record zero_progress {
  operation_status = OperationStatus.failure;
  error_code = ErrorCode.plugin_not_found;
  attempts = 1;
  max_attempts = 1;
}

unfoldable pub new_unforeseen_error : PluginUpdateData → ProgressResult
new_unforeseen_error d = record zero_progress {
  operation_status = OperationStatus.failure;
  error_code = ErrorCode.unforeseen_error;
  attempts = d.attempts;
  max_attempts = d.config.max_retries + 1;
}

unfoldable pub operation_of : Request → Operation
operation_of (read_resource _) = Operation.read
operation_of (create_resource _) = Operation.create
operation_of (update_resource _) = Operation.update
operation_of (delete_resource _) = Operation.delete

-- The method `StatusCheck` of each message.
unfoldable pub status_check : StatusCheck → ProgressResult → CheckStatus
unfolding Resource.namespace
status_check (requested (read_resource r)) progress = record {
  namespace = Resource.namespace r.resource;
  request_id = r.native_id;
  resource_type = r.resource.type;
  resource_operation = Operation.read;
  request = read_resource r;
}
status_check (requested (create_resource c)) progress = record {
  namespace = c.namespace;
  request_id = progress.request_id;
  resource_type = c.resource_type;
  resource_operation = Operation.create;
  request = create_resource c;
}
status_check (requested (update_resource u)) progress = record {
  namespace = u.namespace;
  request_id = progress.request_id;
  resource_type = u.resource_type;
  resource_operation = Operation.update;
  request = update_resource u;
}
status_check (requested (delete_resource d)) progress = record {
  namespace = d.namespace;
  request_id = progress.request_id;
  resource_type = d.resource_type;
  resource_operation = Operation.delete;
  request = delete_resource d;
}
status_check (checked c) progress = c

unfoldable pub retry_message : StatusCheck → Retry
unfolding operation_of
retry_message (checked c) = record {
  resource_operation = c.resource_operation;
  request = c.request;
}
retry_message (requested r) = record { resource_operation = operation_of r; request = r }

-- A handler that ends the operation with an error.
abbrev finish_with_error : PluginUpdateData → ProgressResult → Reply
finish_with_error d progress = record {
  state = State.finished_with_error;
  update_data = d;
  report = some progress;
  scheduled = nothing;
}

abbrev max_attempts_of : PluginUpdateData → ℕ
max_attempts_of d = d.config.max_retries + 1

-- The progress result that is handed on: the plugin's, stamped with the attempts.
unfoldable pub stamp : PluginUpdateData → World → ProgressResult → ProgressResult
stamp d w result = record result {
  attempts = d.attempts;
  max_attempts = max_attempts_of d;
  modified_ts = w.now;
  status_message = if ltb 1 d.attempts then d.last_status_message else result.status_message;
}

unfoldable pub handle_plugin_result :
    PluginUpdateData → StatusCheck → World → ProgressResult → Reply
unfolding stamp status_check retry_message finished_successfully is_recoverable new_unforeseen_error
handle_plugin_result d operation w result =
    let progress = stamp d w result in
    if finished_successfully progress
    then record {
      state = State.finished_successfully;
      update_data = d;
      report = some progress;
      scheduled = nothing;
    }
    else if is_failure progress.operation_status
    then (if is_recoverable progress.error_code && leb d.attempts (max_attempts_of d)
        then (let d' = record d { last_status_message = progress.status_message } in
            if w.retry_scheduled
            then record {
              state = State.retrying;
              update_data = d';
              report = some progress;
              scheduled = retry_later (retry_message operation);
            }
            else finish_with_error d' (new_unforeseen_error d'))
        else finish_with_error d progress)
    else record {
      state = State.waiting_for_resource;
      update_data = d;
      report = some progress;
      scheduled = check_later (status_check operation progress);
    }

abbrev pub is_set : ErrorCode → Bool
is_set ErrorCode.not_set = false
is_set _ = true

abbrev pub is_not_found : ErrorCode → Bool
is_not_found ErrorCode.not_found = true
is_not_found _ = false

-- The progress result that `read` builds from the plugin's answer.
unfoldable pub read_progress : ReadResource → World → ProgressResult
unfolding treat_not_found_as_success
read_progress operation w = elim w.read_result [
  | none ↦ record base {
    operation_status = OperationStatus.failure;
    error_code = ErrorCode.unforeseen_error;
    status_message = w.error_message;
  }
  | some result ↦
      if is_set result.error_code && not (treat_not_found_as_success operation)
      then record base {
        operation_status = OperationStatus.failure;
        error_code = result.error_code;
      }
      else if is_not_found result.error_code && treat_not_found_as_success operation
      then record base {
        operation_status = OperationStatus.success;
        error_code = result.error_code;
      }
      else record base {
        operation_status = OperationStatus.success;
        resource_properties = result.properties;
      }
]
  where
    base : ProgressResult
    base = record zero_progress {
      operation = Operation.read;
      native_id = operation.native_id;
      resource_type = operation.resource.type;
    }

unfoldable pub read : PluginUpdateData → ReadResource → World → Reply
unfolding handle_plugin_result read_progress plugin_not_found_error
read d operation w =
    if w.plugin_found
    then handle_plugin_result d (requested (read_resource operation)) w (read_progress operation w)
    else finish_with_error d plugin_not_found_error

-- The call of the plugin and what follows it, in `create`, `update` and `delete`.
change : PluginUpdateData → Request → World → Reply
unfolding handle_plugin_result new_unforeseen_error
change d request w = elim w.result [
  | none ↦ finish_with_error d (new_unforeseen_error d)
  | some result ↦ handle_plugin_result d (requested request) w result
]

unfoldable pub create : PluginUpdateData → ChangeResource → World → Reply
unfolding change plugin_not_found_error
create d operation w =
    if w.plugin_found
    then (if w.converted
        then change d (create_resource operation) w
        else finish_with_error d (new_unforeseen_error d))
    else finish_with_error d plugin_not_found_error

unfoldable pub update : PluginUpdateData → ChangeResource → World → Reply
unfolding change plugin_not_found_error
update d operation w =
    if w.plugin_found
    then (if w.existing_converted && (w.existing_has_metadata && (w.converted && w.has_metadata))
        then change d (update_resource operation) w
        else finish_with_error d (new_unforeseen_error d))
    else finish_with_error d plugin_not_found_error

unfoldable pub delete : PluginUpdateData → ChangeResource → World → Reply
unfolding change plugin_not_found_error
delete d operation w =
    if w.plugin_found
    then change d (delete_resource operation) w
    else finish_with_error d plugin_not_found_error

-- A handler that ends with an error and tells nobody.
abbrev finish_silently : PluginUpdateData → Reply
finish_silently d = record {
  state = State.finished_with_error;
  update_data = d;
  report = none;
  scheduled = nothing;
}

unfoldable pub status : PluginUpdateData → CheckStatus → World → Reply
unfolding handle_plugin_result
status d operation w =
    if w.plugin_found
    then (elim w.result [
      | none ↦ finish_silently d
      | some result ↦
          let reply = handle_plugin_result d (checked operation) w result in
          if w.progress_sent then reply else finish_silently reply.update_data
    ])
    else finish_silently d

-- The type switch of `retry`. `none` stands for the panic of a type assertion that fails, and for an
-- operation that the switch has no case for, where the zero values are sent and returned.
perform : PluginUpdateData → Operation → Request → World → Option Reply
unfolding read create update delete
perform d Operation.read (read_resource r) w = some (read d r w)
perform d Operation.create (create_resource r) w = some (create d r w)
perform d Operation.update (update_resource r) w = some (update d r w)
perform d Operation.delete (delete_resource r) w = some (delete d r w)
perform d _ _ w = none

abbrev with_attempts : PluginUpdateData → Option ProgressResult → Option ProgressResult
with_attempts d none = none
with_attempts d (some p) =
    some (record p { attempts = d.attempts; max_attempts = max_attempts_of d })

unfoldable pub retry : PluginUpdateData → Retry → World → Option Reply
unfolding perform
retry d operation w =
    let d' = record d { attempts = d.attempts + 1 } in
    elim (perform d' operation.resource_operation operation.request w) [
      | none ↦ none
      | some reply ↦ some (
          if w.progress_sent
          then record reply { report = with_attempts d' reply.report }
          else finish_silently d')
    ]

unfoldable pub resume : PluginUpdateData → ResumeWaitingForResource → World → Reply
unfolding handle_plugin_result new_unforeseen_error
resume d operation w =
    let d' = record d { attempts = operation.previous_attempts } in
    if w.plugin_found
    then (elim w.result [
      | none ↦ finish_with_error d' (new_unforeseen_error d')
      | some result ↦ handle_plugin_result d' (checked operation.request) w result
    ])
    else finish_with_error d' zero_progress
