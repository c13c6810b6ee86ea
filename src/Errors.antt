-- ===== src/Errors.antt =====
-- rawfile/utils/errors.py, the exceptions of the other modules, and the built-in ones that their
-- code meets. A call that may raise returns a `Result`.
use Prim.Native.String.{◌++◌}
use rawfile_localpv.Prelude.{ℕ, String, Option, none, some}

pub data StatusCode : Type 0 where
  invalid_argument not_found unimplemented resource_exhausted deadline_exceeded : StatusCode
  failed_precondition unauthenticated : StatusCode

pub data Exception : Type 0 where
  -- errors.py
  unknown_device_for_mountpoint : String → Exception
  invalid_device_for_mountpoint : String → String → Exception
  snapshot_create_volume_in_use : String → String → Exception
  volume_cloning_not_supported : Exception
  fs_freeze_not_supported_on_block_volumes : Exception
  source_type_required : String → Exception
  volume_in_use : String → Exception
  volume_source_is_not_ready : String → String → String → Exception
  volume_not_ready : String → Exception
  driver_config_not_available : Exception
  node_daemon_set_not_defined : Exception
  unsupported_access_type : String → Exception
  loop_device_attach : String → String → Option String → Exception
  unknown_file_type : String → Exception
  -- task_manager.py, volume_schema.py, orchestrator/k8s.py
  task_manager_shutting_down : Exception
  schema_version_too_new : ℕ → ℕ → Exception
  node_unavailable : String → Exception
  -- an answer of the Kubernetes API that is not a success, with its code
  api_error : ℕ → Exception
  -- filesystem/base.py; an operation that failed, and on which kind of file system
  file_system_operation : String → String → Exception
  unknown_file_system device_is_not_block : String → Exception
  invalid_mountpoint : Exception
  -- `context.abort` of gRPC raises
  aborted : StatusCode → String → Exception
  -- built-in exceptions
  file_not_found not_empty file_exists value_error blocking_io cancelled : Exception
  type_error attribute_error not_a_directory is_a_directory os_error : Exception
  called_process : Exception
  runtime_error assertion_error index_error : Exception
  key_error : String → Exception

pub data Result (A : Type 0) : Type 0 where
  ok : A → Result A
  err : Exception → Result A

-- `self.message` of each class of errors.py; the other exceptions have none of their own.
pub message : Exception → Option String
message (unknown_device_for_mountpoint mountpoint) =
    some ("Unable to determine the device for mountpoint '" ++ mountpoint ++ "'")
message (invalid_device_for_mountpoint device mountpoint) =
    some ("Device " ++ device ++ " is not valid for mountpoint " ++ mountpoint)
message (snapshot_create_volume_in_use volume_id snapshot_name) = some (
    "Unable to create snapshot for used volume, Volume '" ++ volume_id ++ "' and Snapshot '"
    ++ snapshot_name ++ "'")
message volume_cloning_not_supported = some "Volume Cloning is not supported"
message fs_freeze_not_supported_on_block_volumes = some "FsFreeze is not supported on block volumes"
message (source_type_required source_id) =
    some ("No Source Type has been provided for " ++ source_id)
message (volume_in_use volume_id) = some ("Volume " ++ volume_id ++ " is attached")
message (volume_source_is_not_ready volume_id source_volume_id snapshot_name) = some (
    "VolumeSource " ++ source_volume_id ++ "/" ++ snapshot_name ++ " is not ready for destination "
    ++ volume_id)
message (volume_not_ready volume_id) = some ("Volume " ++ volume_id ++ " is not ready")
message driver_config_not_available =
    some "Driver config is not available, Should run from csi driver"
message node_daemon_set_not_defined = some "Node Daemonset is not defined"
message (unsupported_access_type access_type) =
    some ("Access type " ++ access_type ++ " is not supported")
message (loop_device_attach file max_attempts none) =
    some ("Failed to attach loop device for " ++ file ++ " after " ++ max_attempts ++ " attempts")
message (loop_device_attach file max_attempts (some last)) = some (
    "Failed to attach loop device for " ++ file ++ " after " ++ max_attempts ++ " attempts: "
    ++ last)
message (unknown_file_type path) = some ("Unknown file type: " ++ path)
message other = none
