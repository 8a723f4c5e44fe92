-- ===== src/Api/Handlers.antt =====
-- api-backend/handlers/tasks.go, kvstore.go and health.go. Log lines are left out. A body is what
-- `json.NewDecoder(r.Body).Decode` makes of it, or none where it fails. Each handler that writes returns
-- the response and the node.
use poc_cometbft.Prelude.{
  ℕ, List, [], ◌∷◌, ◌++◌, Option, none, some, Outcome, ok, err, panic, if◌then◌else◌,
}
use poc_cometbft.Bytes.{Bytes, bytes, bytes_eq}
use poc_cometbft.Bytes.ParseUint.{parse_uint}
use poc_cometbft.Taskreg.Types.{Task}
use poc_cometbft.Api.Respond.{Response, respond_json, respond_error}
use poc_cometbft.Api.ChainClient
use poc_cometbft.Api.ChainClient.{Chain}
use poc_cometbft.Api.KvClient
use poc_cometbft.Api.KvClient.{Rpc}

pub record CreateTaskRequest : Type 0 where
  pub title : Bytes
  pub description : Bytes

-- What a handler answers with: the hash of a transaction, tasks, or strings by name.
pub data Data : Type 0 where
  tx_hash : Bytes → Data
  task : Task → Data
  tasks : List Task → Data
  strings : List (Bytes × Bytes) → Data

-- The end of a handler: the client's error with status 500, or its result. A panic of the client is
-- one of the handler, for the server to recover from.
unfoldable pub answer : {A D : Type 0} → ℕ → (A → D) → Outcome Bytes A → Outcome Bytes (Response D)
answer status data_of (ok a) = ok (respond_json status (data_of a))
answer status data_of (err e) = ok (respond_error 500 e)
answer status data_of panic = panic

-- The number in a path, where `ParseUint` returns no error.
unfoldable pub path_id : Bytes → Option ℕ
path_id id_str = elim (parse_uint id_str).1 [ some e ↦ none | none ↦ some (parse_uint id_str).0 ]

module _ (c : Chain) where
  unfoldable pub answer_tx :
      ℕ → Outcome Bytes Bytes × c.Node → Outcome Bytes (Response Data) × c.Node
  unfolding answer
  answer_tx status (result, node) = (answer status tx_hash result, node)

  unfoldable pub create_task :
      c.Node → Option CreateTaskRequest → Outcome Bytes (Response Data) × c.Node
  unfolding answer_tx
  create_task node none = (ok (respond_error 400 (bytes "invalid request body")), node)
  create_task node (some req) =
      if bytes_eq req.title []
      then (ok (respond_error 400 (bytes "title is required")), node)
      else answer_tx 201 (ChainClient.create_task c node req.title req.description)

  unfoldable pub list_tasks : c.Node → Outcome Bytes (Response Data)
  unfolding answer
  list_tasks node = answer 200 tasks (ChainClient.list_tasks c node)

  unfoldable pub get_task : c.Node → Bytes → Outcome Bytes (Response Data)
  unfolding answer
  get_task node id_str = elim (path_id id_str) [
    | none ↦ ok (respond_error 400 (bytes "invalid task id"))
    | some id ↦ answer 200 task (ChainClient.get_task c node id)
  ]

  -- `body` is the assignee that the request names.
  unfoldable pub assign_task :
      c.Node → Bytes → Option Bytes → Outcome Bytes (Response Data) × c.Node
  unfolding answer_tx
  assign_task node id_str body = elim (path_id id_str) [
    | none ↦ (ok (respond_error 400 (bytes "invalid task id")), node)
    | some id ↦ elim body [
      | none ↦ (ok (respond_error 400 (bytes "invalid request body")), node)
      | some assignee ↦ answer_tx 200 (ChainClient.assign_task c node id assignee)
    ]
  ]

  unfoldable pub complete_task : c.Node → Bytes → Outcome Bytes (Response Data) × c.Node
  unfolding answer_tx
  complete_task node id_str = elim (path_id id_str) [
    | none ↦ (ok (respond_error 400 (bytes "invalid task id")), node)
    | some id ↦ answer_tx 200 (ChainClient.complete_task c node id)
  ]

module _ (r : Rpc) (hex : Bytes → Bytes) where
  unfoldable pub answer_set :
      Outcome Bytes (List (Bytes × Bytes)) × r.Node → Outcome Bytes (Response Data) × r.Node
  unfolding answer
  answer_set (result, node) = (answer 200 strings result, node)

  -- `body` is the value that the request names.
  unfoldable pub set_key : r.Node → Bytes → Option Bytes → Outcome Bytes (Response Data) × r.Node
  unfolding answer_set
  set_key node key none = (
    ok (
        respond_error 400
          (if bytes_eq key [] then bytes "key is required" else bytes "invalid request body")),
    node,
  )
  set_key node key (some value) =
      if bytes_eq key []
      then (ok (respond_error 400 (bytes "key is required")), node)
      else answer_set (KvClient.set r hex node key value)

  unfoldable pub get_key : r.Node → Bytes → Outcome Bytes (Response Data)
  unfolding answer
  get_key node key =
      if bytes_eq key []
      then ok (respond_error 400 (bytes "key is required"))
      else answer 200 (λ value. strings ((bytes "key", key) ∷ (bytes "value", value) ∷ []))
          (KvClient.get r hex node key)

unfoldable pub health_of : Outcome Bytes (Unit {0}) → Outcome Bytes Bytes
health_of (ok u) = ok (bytes "ok")
health_of (err e) = ok (bytes "error: " ++ e)
health_of panic = panic

unfoldable pub health :
    (c : Chain) (r : Rpc) (hex : Bytes → Bytes) → c.Node → r.Node → Outcome Bytes (Response Data)
unfolding health_of
health c r hex chain kvstore = elim (health_of (ChainClient.check_health c chain)) [
  | panic ↦ panic
  | err e ↦ err e
  | ok of_chain ↦
      answer 200
        (λ of_kvstore. strings ((bytes "chain", of_chain) ∷ (bytes "kvstore", of_kvstore) ∷ []))
        (health_of (KvClient.check_health r hex kvstore))
]
