-- ===== src/Taskreg/Services.antt =====
-- mychain/x/taskreg/types/tx.pb.go and query.pb.go: the descriptions of the two services and the functions
-- in them; mychain/x/taskreg/module.go: `RegisterServices`.
use poc_cometbft.Prelude.{ℕ, List, [], ◌∷◌, Option, none, some, Outcome, ok, err, panic}
use poc_cometbft.Bytes.{Bytes, bytes}
use poc_cometbft.Taskreg.Types.{Task, Error, MsgCreateTask, MsgAssignTask, MsgCompleteTask}
use poc_cometbft.Taskreg.Store.{KvStoreService, Codec}
use poc_cometbft.Taskreg.MsgServer
use poc_cometbft.Taskreg.MsgServer.{Context}
use poc_cometbft.Taskreg.Query
use poc_cometbft.Taskreg.Query.{QueryListTasksRequest, QueryListTasksResponse}
use poc_cometbft.Taskreg.Wire.Messages.{zero_create, zero_assign, zero_complete}

-- The responses of the methods; those to AssignTask and CompleteTask are empty.
pub data Reply : Type 0 where
  created : ℕ → Reply
  done : Reply
  found : Task → Reply
  listed : QueryListTasksResponse → Reply

-- The error of `dec`, the handler's, or the router's for a name that it does not have.
pub data ServiceError : Type 0 where
  undecoded : Bytes → ServiceError
  refused : Error → ServiceError
  unknown_method : ServiceError

-- The server's `dec`, which fills the message that it is given, at the types for which it is called.
pub record Decoder : Type 0 where
  pub create : MsgCreateTask → Outcome Bytes MsgCreateTask
  pub assign : MsgAssignTask → Outcome Bytes MsgAssignTask
  pub complete : MsgCompleteTask → Outcome Bytes MsgCompleteTask
  pub id : ℕ → Outcome Bytes ℕ
  pub list : QueryListTasksRequest → Outcome Bytes QueryListTasksRequest

module _ (s : KvStoreService) where
  abbrev pub Handled : Type 0
  Handled = Outcome ServiceError Reply × Context s

  -- A `grpc.UnaryServerInterceptor`, given the message and the full name of the method.
  pub record Interceptor : Type 1 where
    pub intercept : {A : Type 0} → Context s → A → Bytes → (Context s → A → Handled) → Handled

  -- What the functions share: `fresh` is `new` of the request's type, `method` the call of the server.
  unfoldable pub handle :
      {A : Type 0}
      → Bytes
      → (Context s → A → Handled)
      → Outcome Bytes A
      → Option Interceptor
      → Context s
      → Handled
  handle full_method method (err e) interceptor ctx = (err (undecoded e), ctx)
  handle full_method method panic interceptor ctx = (panic, ctx)
  handle full_method method (ok request) none ctx = method ctx request
  handle full_method method (ok request) (some i) ctx = i.intercept ctx request full_method method

  unfoldable pub replied : {A : Type 0} → (A → Reply) → Outcome Error A × Context s → Handled
  replied reply (ok a, ctx) = (ok (reply a), ctx)
  replied reply (err e, ctx) = (err (refused e), ctx)
  replied reply (panic, ctx) = (panic, ctx)

  -- A method's name and its function.
  pub record MethodDesc : Type 1 where
    pub method_name : Bytes
    pub handler : Decoder → Option Interceptor → Context s → Handled

  pub record ServiceDesc : Type 1 where
    pub service_name : Bytes
    pub methods : List MethodDesc

module _ (s : KvStoreService) (cdc : Codec) where
  unfoldable pub create_task_handler : Decoder → Option (Interceptor s) → Context s → Handled s
  unfolding handle replied
  create_task_handler dec =
      handle s (bytes "/mychain.taskreg.v1.Msg/CreateTask")
        (λ ctx msg. replied s created (MsgServer.create_task s cdc ctx msg))
        (dec.create zero_create)

  unfoldable pub assign_task_handler : Decoder → Option (Interceptor s) → Context s → Handled s
  unfolding handle replied
  assign_task_handler dec =
      handle s (bytes "/mychain.taskreg.v1.Msg/AssignTask")
        (λ ctx msg. replied s (λ u. done) (MsgServer.assign_task s cdc ctx msg))
        (dec.assign zero_assign)

  unfoldable pub complete_task_handler : Decoder → Option (Interceptor s) → Context s → Handled s
  unfolding handle replied
  complete_task_handler dec =
      handle s (bytes "/mychain.taskreg.v1.Msg/CompleteTask")
        (λ ctx msg. replied s (λ u. done) (MsgServer.complete_task s cdc ctx msg))
        (dec.complete zero_complete)

  unfoldable pub msg_service_desc : ServiceDesc s
  unfolding create_task_handler assign_task_handler complete_task_handler
  msg_service_desc = record {
    service_name = bytes "mychain.taskreg.v1.Msg";
    methods =
        record { method_name = bytes "CreateTask"; handler = create_task_handler }
        ∷ record { method_name = bytes "AssignTask"; handler = assign_task_handler }
        ∷ record { method_name = bytes "CompleteTask"; handler = complete_task_handler }
        ∷ [];
  }

  -- A pointer that `new` made is not nil.
  unfoldable pub task_handler : Decoder → Option (Interceptor s) → Context s → Handled s
  unfolding handle replied
  task_handler dec =
      handle s (bytes "/mychain.taskreg.v1.Query/Task")
        (λ ctx id. replied s found (Query.query_task s cdc ctx.store (some id), ctx)) (dec.id 0)

  unfoldable pub list_tasks_handler : Decoder → Option (Interceptor s) → Context s → Handled s
  unfolding handle replied
  list_tasks_handler dec =
      handle s (bytes "/mychain.taskreg.v1.Query/ListTasks")
        (λ ctx req. replied s listed (Query.list_tasks s cdc ctx.store (some req), ctx))
        (dec.list (record { pagination = none }))

  unfoldable pub query_service_desc : ServiceDesc s
  unfolding task_handler list_tasks_handler
  query_service_desc = record {
    service_name = bytes "mychain.taskreg.v1.Query";
    methods =
        record { method_name = bytes "Task"; handler = task_handler }
        ∷ record { method_name = bytes "ListTasks"; handler = list_tasks_handler }
        ∷ [];
  }

  -- What the module registers with the message router and with the query router.
  unfoldable pub register_services : ServiceDesc s × ServiceDesc s
  unfolding msg_service_desc query_service_desc
  register_services = (msg_service_desc, query_service_desc)
