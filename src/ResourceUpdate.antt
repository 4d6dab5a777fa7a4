-- ===== src/ResourceUpdate.antt =====
-- internal/metastructure/resource_update/resource_update.go and the constants of
-- internal/metastructure/types: one update of one resource and the state derived from its progress.
pub mod Progress
pub mod Factory
pub mod Generator
pub mod Updater
use formae.Prelude.{ℕ, Option, List, Text}
use formae.Model.Uri.{FormaeUri}
use formae.Model.Resource
use formae.Model.Resource.{Resource}
use formae.Model.Forma.{Target}
use formae.Plugin.Progress.{ProgressResult}

-- Go strings that take these constants; `replace` is composite.
pub data OperationType : Type 0 where
  create update delete read replace : OperationType

pub data UpdateState : Type 0 where
  unknown not_started pending in_progress failed success : UpdateState
  cancel_in_progress cancel_complete rejected : UpdateState

pub data CommandSource : Type 0 where
  user synchronize discovery : CommandSource

pub record ResourceUpdate : Type 0 where
  pub resource : Resource
  pub resource_target : Target
  pub existing_resource : Resource
  pub existing_target : Target
  pub operation : OperationType
  pub meta_data : Text
  pub state : UpdateState
  pub start_ts : ℕ
  pub modified_ts : ℕ
  pub version : Text
  pub most_recent_progress_result : Option ProgressResult
  pub progress_result : List ProgressResult
  pub source : CommandSource
  pub remaining_resolvables : List FormaeUri
  pub stack_label : Text
  pub previous_properties : Text

unfoldable pub uri : ResourceUpdate → FormaeUri
uri ru = Resource.uri ru.resource
