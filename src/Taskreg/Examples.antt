-- ===== src/Taskreg/Examples.antt =====
-- Runs of the registry: alice creates a task, assigns it to bob, and bob completes it.
use poc_cometbft.Prelude.{◌≡◌, ◌≢◌, ◌↔◌, refl, List, [], ◌∷◌, some, ok, arith}
use poc_cometbft.Bytes.{Bytes, bytes}
use poc_cometbft.Taskreg.Types.{
  Task, GenesisState, MsgCreateTask, MsgAssignTask, MsgCompleteTask, opened,
}
use poc_cometbft.Taskreg.Empty.{no_tasks, no_tasks-IsRegistry, start, start-Abstracts}
use poc_cometbft.Taskreg.Memory.{store, store-laws, codec, codec-laws}
use poc_cometbft.Taskreg.Keeper
use poc_cometbft.Taskreg.MsgServer
use poc_cometbft.Taskreg.MsgServer.{Context, new_task}
use poc_cometbft.Taskreg.Registry
use poc_cometbft.Taskreg.Registry.{Registry, IsRegistry}
use poc_cometbft.Taskreg.Refines.{Abstracts}
use poc_cometbft.Taskreg.History.{Msg, AllMsg, apply, apply_all, deliver_all, deliver_all-refines}
use poc_cometbft.Taskreg.Lifecycle.{Reach, IsLater, task_lifecycle}
use poc_cometbft.Taskreg.Guards.{assign_task_guard, complete_task_guard}
use poc_cometbft.Taskreg.Genesis.{validate}
use poc_cometbft.Taskreg.Import.{Distinct, validate_iff}

abbrev alice : Bytes
alice = bytes "alice"

abbrev bob : Bytes
bob = bytes "bob"

abbrev creating : MsgCreateTask
creating = record { creator = alice; title = bytes "paint"; description = bytes "the fence" }

abbrev assigning : MsgAssignTask
assigning = record { creator = alice; task_id = 1; assignee = bob }

abbrev completing : MsgCompleteTask
completing = record { assignee = bob; task_id = 1 }

abbrev messages : List Msg
messages = Msg.create creating ∷ Msg.assign assigning ∷ Msg.complete completing ∷ []

messages-AllMsg : AllMsg messages
messages-AllMsg = ground arith

-- After the creation.
abbrev ctx_1 : Context store
ctx_1 = deliver_all store codec start (Msg.create creating ∷ [])

abbrev registry_1 : Registry
registry_1 = apply_all no_tasks (Msg.create creating ∷ [])

held_1 : Abstracts store codec ctx_1.store registry_1 × IsRegistry registry_1
held_1 =
    deliver_all-refines store store-laws codec codec-laws (Msg.create creating ∷ []) start no_tasks
      start-Abstracts no_tasks-IsRegistry (messages-AllMsg.0, tt) (omega arith)

stored_1 : Keeper.get_task store codec ctx_1.store 1 ≡ ok (some (new_task 1 creating))
unfolding apply_all apply Registry.create
stored_1 = held_1.0.tasks_at 1 (omega arith)

task_lifecycle_example :
    (u : Task) × (Keeper.get_task store codec
        (deliver_all store codec ctx_1 (Msg.assign assigning ∷ Msg.complete completing ∷ [])).store
        1
      ≡ ok (some u))
    × Reach (new_task 1 creating) (Msg.assign assigning ∷ Msg.complete completing ∷ []) u
    × IsLater (new_task 1 creating) u
unfolding apply_all apply Registry.create
task_lifecycle_example =
    task_lifecycle store store-laws codec codec-laws
      (Msg.assign assigning ∷ Msg.complete completing ∷ []) ctx_1 registry_1 1 (new_task 1 creating)
      held_1.0 held_1.1 messages-AllMsg.1 (omega arith) (omega arith) stored_1

assign_task_guard_example :
    (((MsgServer.assign_task store codec ctx_1 assigning).0 ≡ ok tt) ↔ (
      (t : Task) × (Keeper.get_task store codec ctx_1.store 1 ≡ ok (some t))
      × (t.creator ≡ alice)
      × (t.status ≡ opened)))
    × ((MsgServer.assign_task store codec ctx_1 assigning).0 ≢ ok tt
        → (MsgServer.assign_task store codec ctx_1 assigning).1 ≡ ctx_1)
assign_task_guard_example = assign_task_guard store codec ctx_1 assigning

complete_task_guard_example :
    (((MsgServer.complete_task store codec ctx_1 completing).0 ≡ ok tt) ↔ (
      (t : Task) × (Keeper.get_task store codec ctx_1.store 1 ≡ ok (some t))
      × (t.assignee ≡ bob)
      × (t.status ≡ 2)))
    × ((MsgServer.complete_task store codec ctx_1 completing).0 ≢ ok tt
        → (MsgServer.complete_task store codec ctx_1 completing).1 ≡ ctx_1)
complete_task_guard_example = complete_task_guard store codec ctx_1 completing

abbrev genesis : GenesisState
genesis = record { tasks = new_task 1 creating ∷ new_task 4 creating ∷ []; next_task_id = 5 }

validate_iff_example : (validate genesis ≡ ok tt) ↔ Distinct genesis.tasks
validate_iff_example = validate_iff genesis

genesis_valid : validate genesis ≡ ok tt
unfolding validate
genesis_valid = refl
