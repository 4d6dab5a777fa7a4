-- ===== src/Tests/Operators.antt =====
-- The properties of the plugin operator at one resource.
use formae.Prelude.{true, false, some, [], codes, refl, ◌≡◌}
use formae.Plugin.Progress.{Operation, OperationStatus, ErrorCode, ProgressResult, has_finished}
use formae.PluginOperator.Messages.{
  State, ReadResource, ChangeResource, Request, ResumeWaitingForResource, PluginUpdateData, World,
}
use formae.PluginOperator.Handlers.{read, create, update, delete, resume, read_progress}
use formae.PluginOperator.Handlers.Outcome.{AgreesWith, call_handlers-Agree, resume-Agrees}
use formae.Tests.Samples.{bucket, progress_of}

abbrev first_attempt : PluginUpdateData
first_attempt = record {
  attempts = 1;
  last_status_message = [];
  config = record { max_retries = 2; retry_delay = 5; status_check_interval = 10 };
}

abbrev syncing : ReadResource
syncing = record {
  namespace = codes "AWS";
  native_id = codes "n1";
  resource = bucket (codes "a");
  is_sync = true;
  is_delete = false;
}

abbrev creation : ChangeResource
creation = record {
  namespace = codes "AWS";
  native_id = codes "n1";
  resource_type = codes "AWS::S3::Bucket";
}

-- The plugin is throttled.
abbrev throttled : World
throttled = record {
  plugin_found = true;
  converted = true;
  has_metadata = true;
  existing_converted = true;
  existing_has_metadata = true;
  read_result = some (record { properties = codes "{}"; error_code = ErrorCode.throttling });
  result = some (progress_of Operation.create OperationStatus.failure ErrorCode.throttling);
  error_message = [];
  retry_scheduled = true;
  progress_sent = true;
  now = 7;
}

call_handlers-Agree_example :
    ((r : ReadResource) → AgreesWith (read first_attempt r throttled))
    × ((c : ChangeResource) → AgreesWith (create first_attempt c throttled))
    × ((c : ChangeResource) → AgreesWith (update first_attempt c throttled))
    × ((c : ChangeResource) → AgreesWith (delete first_attempt c throttled))
call_handlers-Agree_example = call_handlers-Agree first_attempt throttled

abbrev resumed : ResumeWaitingForResource
resumed = record {
  namespace = codes "AWS";
  resource_operation = Operation.create;
  request = record {
    namespace = codes "AWS";
    request_id = codes "r1";
    resource_type = codes "AWS::S3::Bucket";
    resource_operation = Operation.create;
    request = Request.create_resource creation;
  };
  previous_attempts = 1;
}

resume-Agrees_example :
    (throttled.plugin_found ≡ true → AgreesWith (resume first_attempt resumed throttled))
    × (throttled.plugin_found ≡ false
        → ((resume first_attempt resumed throttled).state ≡ State.finished_with_error)
          × ((p : ProgressResult)
              → (resume first_attempt resumed throttled).report ≡ some p
              → has_finished p ≡ false))
resume-Agrees_example = resume-Agrees first_attempt resumed throttled

-- A read for a synchronisation that the plugin denies is reported as a success without an error code.
denied_read_test :
    let p = read_progress syncing (record throttled {
      read_result = some (record { properties = []; error_code = ErrorCode.access_denied });
    }) in
    (p.operation_status ≡ OperationStatus.success) × (p.error_code ≡ ErrorCode.not_set)
unfolding read_progress
denied_read_test = (refl, refl)
