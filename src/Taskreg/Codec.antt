-- ===== src/Taskreg/Codec.antt =====
-- mychain/x/taskreg/types/codec.go: the messages that are registered with the SDK's codecs;
-- tx.pb.go, query.pb.go, types.pb.go and genesis.pb.go: the names under which `init` registers the Go
-- types, and their methods `Descriptor`.
use poc_cometbft.Prelude.{ℕ, List, [], ◌∷◌}
use poc_cometbft.Bytes.{Bytes, bytes}
use poc_cometbft.Taskreg.Protowire.{Protowire}
use poc_cometbft.Taskreg.Descriptors.{FileDescriptor}
use poc_cometbft.Taskreg.Descriptors.Files.{tx_file, types_file, query_file, genesis_file}

-- The Go types of messages.
pub data MessageType : Type 0 where
  msg_create_task msg_create_task_response msg_assign_task msg_assign_task_response : MessageType
  msg_complete_task msg_complete_task_response query_task_request : MessageType
  query_task_response query_list_tasks_request query_list_tasks_response : MessageType
  task genesis_state : MessageType

-- `proto.RegisterType`.
unfoldable pub registered_name : MessageType → Bytes
registered_name msg_create_task = bytes "mychain.taskreg.v1.MsgCreateTask"
registered_name msg_create_task_response = bytes "mychain.taskreg.v1.MsgCreateTaskResponse"
registered_name msg_assign_task = bytes "mychain.taskreg.v1.MsgAssignTask"
registered_name msg_assign_task_response = bytes "mychain.taskreg.v1.MsgAssignTaskResponse"
registered_name msg_complete_task = bytes "mychain.taskreg.v1.MsgCompleteTask"
registered_name msg_complete_task_response = bytes "mychain.taskreg.v1.MsgCompleteTaskResponse"
registered_name query_task_request = bytes "mychain.taskreg.v1.QueryTaskRequest"
registered_name query_task_response = bytes "mychain.taskreg.v1.QueryTaskResponse"
registered_name query_list_tasks_request = bytes "mychain.taskreg.v1.QueryListTasksRequest"
registered_name query_list_tasks_response = bytes "mychain.taskreg.v1.QueryListTasksResponse"
registered_name task = bytes "mychain.taskreg.v1.Task"
registered_name genesis_state = bytes "mychain.taskreg.v1.GenesisState"

module _ (w : Protowire) where
  -- The file whose bytes `Descriptor` returns, and the place of the type in it.
  unfoldable pub descriptor : MessageType → FileDescriptor × ℕ
  descriptor msg_create_task = (tx_file w, 0)
  descriptor msg_create_task_response = (tx_file w, 1)
  descriptor msg_assign_task = (tx_file w, 2)
  descriptor msg_assign_task_response = (tx_file w, 3)
  descriptor msg_complete_task = (tx_file w, 4)
  descriptor msg_complete_task_response = (tx_file w, 5)
  descriptor query_task_request = (query_file, 0)
  descriptor query_task_response = (query_file, 1)
  descriptor query_list_tasks_request = (query_file, 2)
  descriptor query_list_tasks_response = (query_file, 3)
  descriptor task = (types_file, 0)
  descriptor genesis_state = (genesis_file, 0)

-- `RegisterCodec`: the names of the concrete types in amino JSON.
unfoldable pub register_codec : List (MessageType × Bytes)
register_codec =
    (msg_create_task, bytes "taskreg/MsgCreateTask")
    ∷ (msg_assign_task, bytes "taskreg/MsgAssignTask")
    ∷ (msg_complete_task, bytes "taskreg/MsgCompleteTask")
    ∷ []

-- `RegisterInterfaces`: the implementations of `sdk.Msg`. The service that it registers is `msg_service_desc`.
unfoldable pub register_interfaces : List MessageType
register_interfaces = msg_create_task ∷ msg_assign_task ∷ msg_complete_task ∷ []
