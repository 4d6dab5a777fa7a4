-- ===== src/Tests/Samples.antt =====
-- Resources and updates that the tests use.
use formae.Prelude.{true, false, none, List, ◌∷◌, [], Text, codes}
use formae.Model.Uri.{FormaeUri, new_formae_uri}
use formae.Model.Resource.{Resource}
use formae.Model.Schema.{Schema}
use formae.Model.Forma.{Target}
use formae.Plugin.Progress.{Operation, OperationStatus, ErrorCode, ProgressResult}
use formae.ResourceUpdate.{OperationType, UpdateState, CommandSource, ResourceUpdate}

abbrev pub no_schema : Schema
no_schema = record {
  identifier = [];
  tags = [];
  fields = [];
  nonprovisionable = false;
  hints = [];
  discoverable = true;
}

abbrev pub aws : Target
aws = record { label = codes "aws"; namespace = codes "AWS"; config = codes "{}" }

abbrev pub bucket : Text → Resource
bucket id = record {
  label = id;
  group = [];
  type = codes "AWS::S3::Bucket";
  stack = codes "main";
  target = codes "aws";
  schema = no_schema;
  properties = codes "{}";
  read_only_properties = [];
  patch_document = [];
  native_id = [];
  managed = true;
  ksuid = id;
}

abbrev resolvables : List Text → List FormaeUri
resolvables [] = []
resolvables (n ∷ ns) = new_formae_uri n (codes "Arn") ∷ resolvables ns

-- An update of the bucket `id` that waits for the resources `needs`.
abbrev pub update_of : Text → OperationType → UpdateState → List Text → ResourceUpdate
update_of id operation state needs = record {
  resource = bucket id;
  resource_target = aws;
  existing_resource = bucket id;
  existing_target = aws;
  operation = operation;
  meta_data = codes "{}";
  state = state;
  start_ts = 0;
  modified_ts = 0;
  version = [];
  most_recent_progress_result = none;
  progress_result = [];
  source = CommandSource.user;
  remaining_resolvables = resolvables needs;
  stack_label = codes "main";
  previous_properties = [];
}

abbrev pub progress_of : Operation → OperationStatus → ErrorCode → ProgressResult
progress_of operation status code = record {
  operation = operation;
  operation_status = status;
  request_id = codes "r1";
  native_id = codes "n1";
  metadata = codes "{}";
  resource_type = codes "AWS::S3::Bucket";
  resource_properties = codes "{}";
  start_ts = 1;
  modified_ts = 2;
  error_code = code;
  status_message = [];
  attempts = 1;
  max_attempts = 3;
}
