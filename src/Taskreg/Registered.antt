-- ===== src/Taskreg/Registered.antt =====
-- The names that mychain/x/taskreg/types registers agree with the descriptors and with each other.
use poc_cometbft.Prelude.{
  ℕ, ◌≡◌, refl, List, [], ◌∷◌, ◌++◌, none, some, ok, err, map, take, drop, All,
}
use poc_cometbft.Bytes.{Bytes, bytes}
use poc_cometbft.Taskreg.Protowire.{Protowire}
use poc_cometbft.Taskreg.Store.{KvStoreService, Codec}
use poc_cometbft.Taskreg.Types.{MsgCreateTask, MsgAssignTask, MsgCompleteTask, module_name}
use poc_cometbft.Taskreg.MsgServer
use poc_cometbft.Taskreg.Query
use poc_cometbft.Taskreg.Query.{QueryListTasksRequest}
use poc_cometbft.Taskreg.MsgServer.{Context}
use poc_cometbft.Taskreg.Descriptors.{FileDescriptor}
use poc_cometbft.Taskreg.Descriptors.Files.{tx_file, types_file, query_file, genesis_file}
use poc_cometbft.Taskreg.Services.{
  ServiceDesc, Decoder, Interceptor, Handled, undecoded, created, done, found, listed, handle,
  replied, create_task_handler, assign_task_handler, complete_task_handler, task_handler,
  list_tasks_handler, msg_service_desc, query_service_desc, register_services,
}
use poc_cometbft.Taskreg.Codec.{
  MessageType, registered_name, descriptor, register_codec, register_interfaces,
}

-- A name in the package of a file.
abbrev pub qualified : FileDescriptor → Bytes → Bytes
qualified file name = file.package_name ++ (bytes "." ++ name)

module _ (w : Protowire) where
  -- The name of a Go type's message in the descriptor, if its place is one of the file.
  abbrev pub described : MessageType → List Bytes
  described m = map (λ d. d.name) (take 1 (drop (descriptor w m).1 (descriptor w m).0.messages))

  -- The Go type of each message is registered under the full name of the message that stands in the file
  -- and at the place that its method `Descriptor` returns.
  pub registered_name-descriptor :
      (m : MessageType) → registered_name m ∷ [] ≡ map (qualified (descriptor w m).0) (described m)
  unfolding registered_name descriptor tx_file types_file query_file genesis_file
  registered_name-descriptor MessageType.task = refl
  registered_name-descriptor _ = refl

-- A decoder that reads these requests.
abbrev pub reading :
    MsgCreateTask → MsgAssignTask → MsgCompleteTask → ℕ → QueryListTasksRequest → Decoder
reading create assign complete id list = record {
  create = λ zero. ok create;
  assign = λ zero. ok assign;
  complete = λ zero. ok complete;
  id = λ zero. ok id;
  list = λ zero. ok list;
}

-- A decoder that refuses each request with the registered name of the Go type that it is to fill.
abbrev pub naming : Decoder
naming = record {
  create = λ zero. err (registered_name MessageType.msg_create_task);
  assign = λ zero. err (registered_name MessageType.msg_assign_task);
  complete = λ zero. err (registered_name MessageType.msg_complete_task);
  id = λ zero. err (registered_name MessageType.query_task_request);
  list = λ zero. err (registered_name MessageType.query_list_tasks_request);
}

module _ (s : KvStoreService) where
  -- An interceptor that answers with the name it is given.
  abbrev pub telling : Interceptor s
  telling = record {
    intercept = λ ctx request full_method next. (err (undecoded full_method), ctx);
  }

  -- The description of a service and the descriptor of its file have one service, with one full name and
  -- the same methods; the function of each method has the decoder fill a request of the Go type whose
  -- registered name is that of the method's request in the descriptor, gives an interceptor the full name of
  -- the method, and without one ends in these calls.
  pub record Describes (file : FileDescriptor) (desc : ServiceDesc s) (requests : List MessageType)
      (dec : Decoder) (ctx : Context s) (calls : List (Handled s)) : Type 0 where
    pub service_lem : map (λ d. qualified file d.name) file.services ≡ desc.service_name ∷ []
    pub methods_lem :
        map (λ d. map (λ e. e.name) d.methods) file.services
        ≡ map (λ e. e.method_name) desc.methods ∷ []
    pub requests_lem :
        map (λ d. map (λ e. e.input_type) d.methods) file.services
        ≡ map (λ m. bytes "." ++ registered_name m) requests ∷ []
    pub decodes_lem :
        map (λ e. e.handler naming none ctx) desc.methods
        ≡ map (λ m. (err (undecoded (registered_name m)), ctx)) requests
    pub named_lem :
        map (λ e. e.handler dec (some telling) ctx) desc.methods
        ≡ map
            (λ e. (
              err (undecoded (bytes "/" ++ (desc.service_name ++ (bytes "/" ++ e.method_name)))),
              ctx,
            ))
            desc.methods
    pub calls_lem : map (λ e. e.handler dec none ctx) desc.methods ≡ calls

-- The services that the module registers are those of the registered file descriptors: with the same full
-- names and methods in the same order. The function of each method decodes the Go type that is registered
-- under the name of its request in the descriptor, passes the method's full name on, and calls the
-- method of this name of the module's servers with what it decoded. The requests of the service Msg are
-- the types that are registered as `sdk.Msg` and with amino, there under the module's name and the
-- message's.
pub register_services-described :
    (w : Protowire) (s : KvStoreService) (cdc : Codec) (create : MsgCreateTask)
    (assign : MsgAssignTask) (complete : MsgCompleteTask) (id : ℕ) (list : QueryListTasksRequest)
    (ctx : Context s)
    → Describes s
        (tx_file w)
        (register_services s cdc).0
        register_interfaces
        (reading create assign complete id list)
        ctx
        (replied s created (MsgServer.create_task s cdc ctx create)
          ∷ replied s (λ u. done) (MsgServer.assign_task s cdc ctx assign)
          ∷ replied s (λ u. done) (MsgServer.complete_task s cdc ctx complete)
          ∷ [])
      × Describes s query_file
          (register_services s cdc).1
          (MessageType.query_task_request ∷ MessageType.query_list_tasks_request ∷ [])
          (reading create assign complete id list)
          ctx
          (replied s found (Query.query_task s cdc ctx.store (some id), ctx)
            ∷ replied s listed (Query.list_tasks s cdc ctx.store (some list), ctx)
            ∷ [])
      × (map (λ a. a.0) register_codec ≡ register_interfaces)
      × All
          (λ a. a.1 ∷ [] ≡ map (λ name. module_name ++ (bytes "/" ++ name)) (described w a.0))
          register_codec
unfolding registered_name descriptor tx_file query_file register_codec register_interfaces
    register_services msg_service_desc query_service_desc handle create_task_handler
    assign_task_handler complete_task_handler task_handler list_tasks_handler
register_services-described w s cdc create assign complete id list ctx = (
  record {
    service_lem = refl;
    methods_lem = refl;
    requests_lem = refl;
    decodes_lem = refl;
    named_lem = refl;
    calls_lem = refl;
  },
  record {
    service_lem = refl;
    methods_lem = refl;
    requests_lem = refl;
    decodes_lem = refl;
    named_lem = refl;
    calls_lem = refl;
  },
  refl,
  (refl, (refl, (refl, tt))),
)
