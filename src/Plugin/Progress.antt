-- ===== src/Plugin/Progress.antt =====
-- pkg/plugin/resource/resource.go: progress results and the classification of error codes.
use formae.Prelude.{ℕ, Bool, true, false, not, ◌||◌, Text, ltb, if◌then◌else◌}

-- The string constants of `type Operation`, and "" as `unset`.
pub data Operation : Type 0 where
  create update delete read check_status list no_op not_supported unset : Operation

pub operation_discrete : Discrete Operation
operation_discrete = hlevel

pub data OperationStatus : Type 0 where
  success failure in_progress pending unset : OperationStatus

pub data ErrorCode : Type 0 where
  not_updatable invalid_request access_denied unauthorized_tagging_operation : ErrorCode
  invalid_credentials already_exists not_found resource_conflict throttling : ErrorCode
  service_limit_exceeded not_stabilized general_service_exception : ErrorCode
  service_internal_error service_timeout network_failure internal_failure : ErrorCode
  dependency_failure unforeseen_error plugin_not_found not_set : ErrorCode

pub record ProgressResult : Type 0 where
  pub operation : Operation
  pub operation_status : OperationStatus
  pub request_id : Text
  pub native_id : Text
  pub metadata : Text
  pub resource_type : Text
  pub resource_properties : Text
  pub start_ts : ℕ
  pub modified_ts : ℕ
  pub error_code : ErrorCode
  pub status_message : Text
  pub attempts : ℕ
  pub max_attempts : ℕ

-- The keys of `recoverableErrorCodes`.
unfoldable pub is_recoverable : ErrorCode → Bool
is_recoverable throttling = true
is_recoverable not_stabilized = true
is_recoverable service_internal_error = true
is_recoverable service_timeout = true
is_recoverable network_failure = true
is_recoverable internal_failure = true
is_recoverable not_found = true
is_recoverable _ = false

abbrev pub is_success : OperationStatus → Bool
is_success success = true
is_success _ = false

abbrev pub is_failure : OperationStatus → Bool
is_failure failure = true
is_failure _ = false

unfoldable pub finished_successfully : ProgressResult → Bool
finished_successfully p = is_success p.operation_status

unfoldable pub failed : ProgressResult → Bool
failed p =
    if is_failure p.operation_status
    then not (is_recoverable p.error_code) || ltb p.max_attempts p.attempts
    else false

unfoldable pub has_finished : ProgressResult → Bool
unfolding finished_successfully failed
has_finished p = finished_successfully p || failed p
