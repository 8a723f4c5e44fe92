-- ===== src/Taskreg/RegisteredExamples.antt =====
-- The registration on a store in memory, for requests of alice and bob.
use poc_cometbft.Prelude.{◌≡◌, ◌∷◌, [], ◌++◌, none, some, map, All}
use poc_cometbft.Bytes.{bytes}
use poc_cometbft.Taskreg.Types.{MsgCreateTask, MsgAssignTask, MsgCompleteTask, module_name}
use poc_cometbft.Taskreg.Empty.{start}
use poc_cometbft.Taskreg.Memory.{store, codec, wire}
use poc_cometbft.Taskreg.MsgServer
use poc_cometbft.Taskreg.Query
use poc_cometbft.Taskreg.Query.{QueryListTasksRequest}
use poc_cometbft.Taskreg.Descriptors.Files.{tx_file, query_file}
use poc_cometbft.Taskreg.Services.{
  register_services, replied, created, done, found, listed, Decoder,
}
use poc_cometbft.Taskreg.Codec.{MessageType, register_codec, register_interfaces}
use poc_cometbft.Taskreg.Registered.{described, Describes, reading, register_services-described}

abbrev creating : MsgCreateTask
creating = record { creator = bytes "alice"; title = bytes "paint"; description = [] }

abbrev assigning : MsgAssignTask
assigning = record { creator = bytes "alice"; task_id = 1; assignee = bytes "bob" }

abbrev completing : MsgCompleteTask
completing = record { assignee = bytes "bob"; task_id = 1 }

abbrev listing : QueryListTasksRequest
listing = record { pagination = none }

abbrev requests : Decoder
requests = reading creating assigning completing 1 listing

register_services-described_example :
    Describes store
      (tx_file wire)
      (register_services store codec).0
      register_interfaces
      requests
      start
      (replied store created (MsgServer.create_task store codec start creating)
        ∷ replied store (λ u. done) (MsgServer.assign_task store codec start assigning)
        ∷ replied store (λ u. done) (MsgServer.complete_task store codec start completing)
        ∷ [])
    × Describes store query_file
        (register_services store codec).1
        (MessageType.query_task_request ∷ MessageType.query_list_tasks_request ∷ [])
        requests
        start
        (replied store found (Query.query_task store codec start.store (some 1), start)
          ∷ replied store listed (Query.list_tasks store codec start.store (some listing), start)
          ∷ [])
    × (map (λ a. a.0) register_codec ≡ register_interfaces)
    × All
        (λ a. a.1 ∷ [] ≡ map (λ name. module_name ++ (bytes "/" ++ name)) (described wire a.0))
        register_codec
register_services-described_example =
    register_services-described wire store codec creating assigning completing 1 listing start
