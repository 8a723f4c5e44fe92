-- ===== src/Taskreg/Descriptors/Files.antt =====
-- mychain/x/taskreg/types/proto_descriptor.go: the descriptors of the four proto files.
use poc_cometbft.Prelude.{List, [], ◌∷◌, Option, none, some}
use poc_cometbft.Bytes.{Bytes, bytes}
use poc_cometbft.Taskreg.Protowire.{Protowire}
use poc_cometbft.Taskreg.Descriptors.{
  FileDescriptor, MessageDescriptor, MethodDescriptor, FieldDescriptor, str_field, uint64_field,
  enum_field, msg_field, repeated_msg_field, signer_opts, service_opts,
}

abbrev method : Bytes → Bytes → Bytes → MethodDescriptor
method name input_type output_type = record {
  name = name;
  input_type = input_type;
  output_type = output_type;
}

abbrev message : Bytes → Option Bytes → List FieldDescriptor → MessageDescriptor
message name options fields = record { name = name; options = options; fields = fields }

module _ (w : Protowire) where
  unfoldable pub tx_file : FileDescriptor
  unfolding signer_opts service_opts str_field uint64_field
  tx_file = record {
    name = bytes "mychain/taskreg/v1/tx.proto";
    package_name = bytes "mychain.taskreg.v1";
    syntax = bytes "proto3";
    dependency = bytes "cosmos/msg/v1/msg.proto" ∷ bytes "gogoproto/gogo.proto" ∷ [];
    go_package = bytes "poc-cometbft/mychain/x/taskreg/types";
    services =
        record {
          name = bytes "Msg";
          options = some (service_opts w);
          methods =
              method (bytes "CreateTask") (bytes ".mychain.taskreg.v1.MsgCreateTask")
                (bytes ".mychain.taskreg.v1.MsgCreateTaskResponse")
              ∷ method (bytes "AssignTask") (bytes ".mychain.taskreg.v1.MsgAssignTask")
                  (bytes ".mychain.taskreg.v1.MsgAssignTaskResponse")
              ∷ method (bytes "CompleteTask") (bytes ".mychain.taskreg.v1.MsgCompleteTask")
                  (bytes ".mychain.taskreg.v1.MsgCompleteTaskResponse")
              ∷ [];
        }
        ∷ [];
    enums = [];
    messages =
        message (bytes "MsgCreateTask") (some (signer_opts w (bytes "creator"))) (
          str_field (bytes "creator") 1
          ∷ str_field (bytes "title") 2
          ∷ str_field (bytes "description") 3
          ∷ [])
        ∷ message (bytes "MsgCreateTaskResponse") none (uint64_field (bytes "id") 1 ∷ [])
        ∷ message (bytes "MsgAssignTask") (some (signer_opts w (bytes "creator"))) (
            str_field (bytes "creator") 1
            ∷ uint64_field (bytes "task_id") 2
            ∷ str_field (bytes "assignee") 3
            ∷ [])
        ∷ message (bytes "MsgAssignTaskResponse") none []
        ∷ message (bytes "MsgCompleteTask") (some (signer_opts w (bytes "assignee")))
            (str_field (bytes "assignee") 1 ∷ uint64_field (bytes "task_id") 2 ∷ [])
        ∷ message (bytes "MsgCompleteTaskResponse") none []
        ∷ [];
  }

unfoldable pub types_file : FileDescriptor
unfolding str_field uint64_field enum_field
types_file = record {
  name = bytes "mychain/taskreg/v1/types.proto";
  package_name = bytes "mychain.taskreg.v1";
  syntax = bytes "proto3";
  dependency = bytes "gogoproto/gogo.proto" ∷ [];
  go_package = bytes "poc-cometbft/mychain/x/taskreg/types";
  services = [];
  enums =
      record {
        name = bytes "TaskStatus";
        values =
            (bytes "TASK_STATUS_UNSPECIFIED", 0)
            ∷ (bytes "TASK_STATUS_OPEN", 1)
            ∷ (bytes "TASK_STATUS_ASSIGNED", 2)
            ∷ (bytes "TASK_STATUS_COMPLETED", 3)
            ∷ [];
      }
      ∷ [];
  messages =
      message (bytes "Task") none (
        uint64_field (bytes "id") 1
        ∷ str_field (bytes "title") 2
        ∷ str_field (bytes "description") 3
        ∷ str_field (bytes "creator") 4
        ∷ str_field (bytes "assignee") 5
        ∷ enum_field (bytes "status") 6 (bytes ".mychain.taskreg.v1.TaskStatus")
        ∷ [])
      ∷ [];
}

unfoldable pub query_file : FileDescriptor
unfolding uint64_field msg_field repeated_msg_field
query_file = record {
  name = bytes "mychain/taskreg/v1/query.proto";
  package_name = bytes "mychain.taskreg.v1";
  syntax = bytes "proto3";
  dependency =
      bytes "gogoproto/gogo.proto"
      ∷ bytes "google/api/annotations.proto"
      ∷ bytes "cosmos/base/query/v1beta1/pagination.proto"
      ∷ bytes "mychain/taskreg/v1/types.proto"
      ∷ [];
  go_package = bytes "poc-cometbft/mychain/x/taskreg/types";
  services =
      record {
        name = bytes "Query";
        options = none;
        methods =
            method (bytes "Task") (bytes ".mychain.taskreg.v1.QueryTaskRequest")
              (bytes ".mychain.taskreg.v1.QueryTaskResponse")
            ∷ method (bytes "ListTasks") (bytes ".mychain.taskreg.v1.QueryListTasksRequest")
                (bytes ".mychain.taskreg.v1.QueryListTasksResponse")
            ∷ [];
      }
      ∷ [];
  enums = [];
  messages =
      message (bytes "QueryTaskRequest") none (uint64_field (bytes "id") 1 ∷ [])
      ∷ message (bytes "QueryTaskResponse") none
          (msg_field (bytes "task") 1 (bytes ".mychain.taskreg.v1.Task") ∷ [])
      ∷ message (bytes "QueryListTasksRequest") none
          (msg_field (bytes "pagination") 1 (bytes ".cosmos.base.query.v1beta1.PageRequest") ∷ [])
      ∷ message (bytes "QueryListTasksResponse") none (
          repeated_msg_field (bytes "tasks") 1 (bytes ".mychain.taskreg.v1.Task")
          ∷ msg_field (bytes "pagination") 2 (bytes ".cosmos.base.query.v1beta1.PageResponse")
          ∷ [])
      ∷ [];
}

unfoldable pub genesis_file : FileDescriptor
unfolding uint64_field repeated_msg_field
genesis_file = record {
  name = bytes "mychain/taskreg/v1/genesis.proto";
  package_name = bytes "mychain.taskreg.v1";
  syntax = bytes "proto3";
  dependency = bytes "gogoproto/gogo.proto" ∷ bytes "mychain/taskreg/v1/types.proto" ∷ [];
  go_package = bytes "poc-cometbft/mychain/x/taskreg/types";
  services = [];
  enums = [];
  messages =
      message (bytes "GenesisState") none (
        repeated_msg_field (bytes "tasks") 1 (bytes ".mychain.taskreg.v1.Task")
        ∷ uint64_field (bytes "next_task_id") 2
        ∷ [])
      ∷ [];
}
