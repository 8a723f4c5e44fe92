-- ===== src/Taskreg/Wire/Examples.antt =====
-- The messages at concrete values, on a wire format that writes each number as one item.
use poc_cometbft.Prelude.{◌>>=◌, none, some, ℕ, ◌≡◌, ◌≢◌, refl, [], ◌∷◌, ok, panic, length, arith}
use poc_cometbft.Bytes.{Bytes, bytes, bytes_eq}
use poc_cometbft.Taskreg.Types.{
  Task, IsTask, GenesisState, MsgCreateTask, MsgAssignTask, MsgCompleteTask,
}
use poc_cometbft.Taskreg.Memory.{wire, wire-laws}
use poc_cometbft.Taskreg.Wire.Messages.{
  uint64_status, zero_task, zero_create, zero_assign, zero_complete, zero_genesis, marshal_task,
  unmarshal_task, marshal_create, unmarshal_create, marshal_assign, unmarshal_assign,
  marshal_complete, unmarshal_complete, marshal_id, unmarshal_id, marshal_genesis,
  unmarshal_genesis, marshal_response, unmarshal_response, size_task, size_genesis, size_create,
  size_assign, size_complete, size_id, size_response,
}
use poc_cometbft.Taskreg.Wire.Nested.{Fits, unmarshal-marshal_messages}
use poc_cometbft.Taskreg.Wire.Lists.{
  PageCodec, response, marshal_list_request, unmarshal_list_request, marshal_list_response,
  unmarshal_list_response, unmarshal-marshal_lists,
}
use poc_cometbft.Taskreg.Wire.Sizes.{sizes_lem}
use poc_cometbft.Taskreg.Wire.Total.{unmarshals-ne-panic}

abbrev task : Task
task = record {
  id = 7;
  title = bytes "paint";
  description = [];
  creator = bytes "alice";
  assignee = bytes "bob";
  status = 2;
}

task-IsTask : IsTask task
task-IsTask = omega arith

task_bytes :
    marshal_task wire task
    ≡ 8 ∷ 7 ∷ 18 ∷ 5 ∷ 112 ∷ 97 ∷ 105 ∷ 110 ∷ 116 ∷ 34 ∷ 5 ∷ 97 ∷ 108 ∷ 105 ∷ 99 ∷ 101 ∷ 42 ∷ 3 ∷ 98
      ∷ 111 ∷ 98 ∷ 48 ∷ 2 ∷ []
unfolding marshal_task bytes_eq uint64_status
task_bytes = refl

task-Fits : Fits wire wire-laws task
unfolding marshal_task bytes_eq
task-Fits = (task-IsTask, omega arith)

abbrev create : MsgCreateTask
create = record { creator = bytes "alice"; title = bytes "paint"; description = [] }

abbrev assign : MsgAssignTask
assign = record { creator = bytes "alice"; task_id = 7; assignee = bytes "bob" }

abbrev complete : MsgCompleteTask
complete = record { assignee = bytes "bob"; task_id = 7 }

abbrev genesis : GenesisState
genesis = record { tasks = task ∷ task ∷ []; next_task_id = 8 }

unmarshal-marshal_messages_example :
    (unmarshal_task wire zero_task (marshal_task wire task) ≡ ok task)
    × (unmarshal_create wire zero_create (marshal_create wire create) ≡ ok create)
    × (unmarshal_assign wire zero_assign (marshal_assign wire assign) ≡ ok assign)
    × (unmarshal_complete wire zero_complete (marshal_complete wire complete) ≡ ok complete)
    × (unmarshal_id wire 0 (marshal_id wire 7) ≡ ok 7)
    × (unmarshal_response wire zero_task (marshal_response wire task) ≡ ok task)
    × (unmarshal_genesis wire zero_genesis (marshal_genesis wire genesis) ≡ ok genesis)
unmarshal-marshal_messages_example =
    unmarshal-marshal_messages wire wire-laws create assign complete 7 task genesis
      (omega arith, omega arith, omega arith) (omega arith, omega arith, omega arith)
      (omega arith, omega arith) (omega arith) task-Fits (task-Fits, (task-Fits, tt)) (omega arith)

sizes_lem_example :
    ((t : Task) → length (marshal_task wire t) ≡ size_task wire t)
    × ((gs : GenesisState) → length (marshal_genesis wire gs) ≡ size_genesis wire gs)
    × ((m : MsgCreateTask) → length (marshal_create wire m) ≡ size_create wire m)
    × ((m : MsgAssignTask) → length (marshal_assign wire m) ≡ size_assign wire m)
    × ((m : MsgCompleteTask) → length (marshal_complete wire m) ≡ size_complete wire m)
    × ((id : ℕ) → length (marshal_id wire id) ≡ size_id wire id)
    × ((t : Task) → length (marshal_response wire t) ≡ size_response wire t)
sizes_lem_example = sizes_lem wire wire-laws

-- A string that is said to be longer than what follows.
abbrev cut : Bytes
cut = 18 ∷ 9 ∷ 112 ∷ []

unmarshals-ne-panic_example :
    ((m : Task) → unmarshal_task wire m cut ≢ panic)
    × ((m : GenesisState) → unmarshal_genesis wire m cut ≢ panic)
    × ((m : MsgCreateTask) → unmarshal_create wire m cut ≢ panic)
    × ((m : MsgAssignTask) → unmarshal_assign wire m cut ≢ panic)
    × ((m : MsgCompleteTask) → unmarshal_complete wire m cut ≢ panic)
    × ((id : ℕ) → unmarshal_id wire id cut ≢ panic)
    × ((m : Task) → unmarshal_response wire m cut ≢ panic)
unmarshals-ne-panic_example = unmarshals-ne-panic wire wire-laws cut

-- A pagination that is its bytes.
abbrev raw_page : PageCodec Bytes
raw_page = record { marshal = λ p. ok p; size = λ p. length p; unmarshal = λ bz. ok bz }

unmarshal-marshal_lists_example :
    ((marshal_list_request wire raw_page (some (8 ∷ 1 ∷ []))
        >>= unmarshal_list_request wire raw_page none)
      ≡ ok (some (8 ∷ 1 ∷ [])))
    × ((marshal_list_response wire raw_page
            (record { tasks = task ∷ []; pagination = some (8 ∷ 1 ∷ []) })
          >>= unmarshal_list_response wire raw_page (response wire wire-laws raw_page []))
        ≡ ok (record { tasks = task ∷ []; pagination = some (8 ∷ 1 ∷ []) }))
unmarshal-marshal_lists_example =
    unmarshal-marshal_lists wire wire-laws raw_page (task ∷ []) (8 ∷ 1 ∷ []) (8 ∷ 1 ∷ [])
      (task-Fits, tt) (refl, refl, omega arith, omega arith)
