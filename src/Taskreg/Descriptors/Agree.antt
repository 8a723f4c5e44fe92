-- ===== src/Taskreg/Descriptors/Agree.antt =====
-- The `Marshal` methods write what the descriptors of the proto files say.
use poc_cometbft.Prelude.{ℕ, List, [], ◌∷◌, ◌≡◌, some, if◌then◌else◌, ltb, length, map}
use poc_cometbft.Bytes.{Bytes, bytes}
use poc_cometbft.Taskreg.Types.{Task, GenesisState, MsgCreateTask, MsgAssignTask, MsgCompleteTask}
use poc_cometbft.Taskreg.Protowire.{Protowire}
use poc_cometbft.Taskreg.Wire.Messages.{
  uint64_status, marshal_task, marshal_create, marshal_id, marshal_assign, marshal_complete,
  marshal_genesis, marshal_response,
}
use poc_cometbft.Taskreg.Descriptors.{MessageDescriptor}
use poc_cometbft.Taskreg.Descriptors.Files.{tx_file, types_file, query_file, genesis_file}
use poc_cometbft.Taskreg.Descriptors.Encoder.{Value, text, number, submessages, encode_named}

module _ (w : Protowire) where
  -- The message of this name, with these values, is these bytes.
  abbrev pub Describes : List MessageDescriptor → Bytes → List Value → Bytes → Type 0
  Describes messages name values bz = encode_named w name messages values ≡ some bz

  abbrev pub task_values : Task → List Value
  task_values m =
      number m.id
      ∷ text m.title
      ∷ text m.description
      ∷ text m.creator
      ∷ text m.assignee
      ∷ number (uint64_status m.status)
      ∷ []

  -- The messages of tx.proto that have fields.
  abbrev pub TxDescribed : MsgCreateTask → ℕ → MsgAssignTask → MsgCompleteTask → Type 0
  TxDescribed create id assign complete =
      Describes (tx_file w).messages (bytes "MsgCreateTask")
        (text create.creator ∷ text create.title ∷ text create.description ∷ [])
        (marshal_create w create)
      × Describes (tx_file w).messages (bytes "MsgCreateTaskResponse") (number id ∷ [])
          (marshal_id w id)
      × Describes (tx_file w).messages (bytes "MsgAssignTask")
          (text assign.creator ∷ number assign.task_id ∷ text assign.assignee ∷ [])
          (marshal_assign w assign)
      × Describes (tx_file w).messages (bytes "MsgCompleteTask")
          (text complete.assignee ∷ number complete.task_id ∷ []) (marshal_complete w complete)

  -- A message that takes no bytes is left out.
  abbrev pub unless_empty : Bytes → List Bytes
  unless_empty bz = if ltb 0 (length bz) then bz ∷ [] else []

  -- The messages of types.proto, genesis.proto and query.proto, but those with a pagination.
  abbrev pub StateDescribed : Task → GenesisState → ℕ → Type 0
  StateDescribed task gs id =
      Describes types_file.messages (bytes "Task") (task_values task) (marshal_task w task)
      × Describes genesis_file.messages (bytes "GenesisState")
          (submessages (map (marshal_task w) gs.tasks) ∷ number gs.next_task_id ∷ [])
          (marshal_genesis w gs)
      × Describes query_file.messages (bytes "QueryTaskRequest") (number id ∷ []) (marshal_id w id)
      × Describes query_file.messages (bytes "QueryTaskResponse")
          (submessages (unless_empty (marshal_task w task)) ∷ []) (marshal_response w task)
