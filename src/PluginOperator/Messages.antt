-- ===== src/PluginOperator/Messages.antt =====
-- plugin_operator.go: the states, the messages and the data of the PluginOperator, and what the
-- outside answers while one message is handled.
use formae.Prelude.{ℕ, Bool, ◌||◌, Option, Text}
use formae.Model.Resource.{Resource}
use formae.Plugin.Progress.{Operation, ErrorCode, ProgressResult}

pub data State : Type 0 where
  not_started waiting_for_resource retrying finished_successfully finished_with_error : State

pub record ReadResource : Type 0 where
  pub namespace : Text
  pub native_id : Text
  pub resource : Resource
  pub is_sync : Bool
  pub is_delete : Bool

unfoldable pub treat_not_found_as_success : ReadResource → Bool
treat_not_found_as_success r = r.is_sync || r.is_delete

-- The fields of CreateResource, UpdateResource and DeleteResource that the operator itself reads.
pub record ChangeResource : Type 0 where
  pub namespace : Text
  pub native_id : Text
  pub resource_type : Text

-- The messages that implement `PluginOperation`.
pub data Request : Type 0 where
  read_resource : ReadResource → Request
  create_resource update_resource delete_resource : ChangeResource → Request

-- Without the metadata and the target, which the operator only hands to the plugin.
pub record CheckStatus : Type 0 where
  pub namespace : Text
  pub request_id : Text
  pub resource_type : Text
  pub resource_operation : Operation
  pub request : Request

-- What implements the interface `StatusCheck`.
pub data StatusCheck : Type 0 where
  requested : Request → StatusCheck
  checked : CheckStatus → StatusCheck

pub record Retry : Type 0 where
  pub resource_operation : Operation
  pub request : Request

pub record ResumeWaitingForResource : Type 0 where
  pub namespace : Text
  pub resource_operation : Operation
  pub request : CheckStatus
  pub previous_attempts : ℕ

pub record RetryConfig : Type 0 where
  pub max_retries : ℕ
  pub retry_delay : ℕ
  pub status_check_interval : ℕ

pub record PluginUpdateData : Type 0 where
  pub attempts : ℕ
  pub last_status_message : Text
  pub config : RetryConfig

pub record ReadResult : Type 0 where
  pub properties : Text
  pub error_code : ErrorCode

-- The answers to the calls that a handler makes: `none` and `false` stand for an error. The plugins,
-- the conversion of the property documents and the actor library are not part of the operator.
pub record World : Type 0 where
  pub plugin_found : Bool
  pub converted : Bool
  pub has_metadata : Bool
  pub existing_converted : Bool
  pub existing_has_metadata : Bool
  pub read_result : Option ReadResult
  pub result : Option ProgressResult
  pub error_message : Text
  pub retry_scheduled : Bool
  pub progress_sent : Bool
  pub now : ℕ

-- A message that the operator schedules for itself.
pub data Scheduled : Type 0 where
  nothing : Scheduled
  retry_later : Retry → Scheduled
  check_later : CheckStatus → Scheduled

-- What a handler leaves behind: the next state, the data, the progress result that the requester gets
-- (as the answer to its call or in a message), and the scheduled message.
pub record Reply : Type 0 where
  pub state : State
  pub update_data : PluginUpdateData
  pub report : Option ProgressResult
  pub scheduled : Scheduled
