-- ===== src/Taskreg/MsgServer.antt =====
-- mychain/x/taskreg/keeper/msg_server.go. A handler returns its outcome and the context that it
-- leaves, also where it fails. Log lines are left out.
use poc_cometbft.Prelude.{
  ℕ, ◌+◌, ◌%◌, ◌^◌, List, [], ◌∷◌, ◌++◌, not, Option, none, some, Outcome, ok, err, panic,
  if◌then◌else◌, ◌==◌,
}
use poc_cometbft.Bytes.{bytes, bytes_eq}
use poc_cometbft.Bytes.Text.{decimal}
use poc_cometbft.Taskreg.Types.{
  Task, opened, assigned, completed, MsgCreateTask, MsgAssignTask, MsgCompleteTask, Error, Event,
  task_not_found, unauthorized, invalid_status,
}
use poc_cometbft.Taskreg.Store.{KvStoreService, Codec}
use poc_cometbft.Taskreg.Keeper

-- What the handlers use of `sdk.Context`: the module's store and the event manager.
pub record Context (s : KvStoreService) : Type 0 where
  pub store : s.Store
  pub events : List Event

abbrev pub not_found : ℕ → Error
not_found id = record {
  kind = task_not_found;
  message = bytes "task " ++ (decimal id ++ bytes " not found");
}

abbrev pub only_creator : Error
only_creator = record { kind = unauthorized; message = bytes "only the task creator can assign" }

abbrev pub only_assignee : Error
only_assignee = record { kind = unauthorized; message = bytes "only the assignee can complete" }

abbrev pub must_be_open : Error
must_be_open = record { kind = invalid_status; message = bytes "task must be OPEN to assign" }

abbrev pub must_be_assigned : Error
must_be_assigned = record {
  kind = invalid_status;
  message = bytes "task must be ASSIGNED to complete";
}

abbrev pub create_event : ℕ → MsgCreateTask → Event
create_event id msg = record {
  type = bytes "create_task";
  attributes =
      (bytes "task_id", decimal id)
      ∷ (bytes "creator", msg.creator)
      ∷ (bytes "title", msg.title)
      ∷ [];
}

abbrev pub assign_event : MsgAssignTask → Event
assign_event msg = record {
  type = bytes "assign_task";
  attributes = (bytes "task_id", decimal msg.task_id) ∷ (bytes "assignee", msg.assignee) ∷ [];
}

abbrev pub complete_event : MsgCompleteTask → Event
complete_event msg = record {
  type = bytes "complete_task";
  attributes = (bytes "task_id", decimal msg.task_id) ∷ (bytes "status", bytes "completed") ∷ [];
}

abbrev pub new_task : ℕ → MsgCreateTask → Task
new_task id msg = record {
  id = id;
  title = msg.title;
  description = msg.description;
  creator = msg.creator;
  assignee = [];
  status = opened;
}

module _ (s : KvStoreService) (cdc : Codec) where
  abbrev pub emit : Context s → Event → Context s
  emit ctx event = record ctx { events = ctx.events ++ (event ∷ []) }

  unfoldable pub create_with :
      Context s → MsgCreateTask → Outcome Error ℕ → Outcome Error ℕ × Context s
  create_with ctx msg (ok id) =
      let with_task = Keeper.set_task s cdc ctx.store (new_task id msg) in
      let store = Keeper.set_next_task_id s cdc with_task ((id + 1) % 2 ^ 64) in
      (ok id, emit (record ctx { store = store }) (create_event id msg))
  create_with ctx msg (err e) = (err e, ctx)
  create_with ctx msg panic = (panic, ctx)

  unfoldable pub create_task : Context s → MsgCreateTask → Outcome Error ℕ × Context s
  unfolding create_with
  create_task ctx msg = create_with ctx msg (Keeper.get_next_task_id s cdc ctx.store)

  unfoldable pub assign_found :
      Context s → MsgAssignTask → Outcome Error (Option Task) → Outcome Error (Unit {0}) × Context s
  assign_found ctx msg (ok none) = (err (not_found msg.task_id), ctx)
  assign_found ctx msg (ok (some task)) =
      if not (bytes_eq task.creator msg.creator)
      then (err only_creator, ctx)
      else if not (task.status == opened)
      then (err must_be_open, ctx)
      else (let task' = record task { assignee = msg.assignee; status = assigned } in
          (
            ok tt,
            emit (record ctx { store = Keeper.set_task s cdc ctx.store task' }) (assign_event msg),
          ))
  assign_found ctx msg (err e) = (err e, ctx)
  assign_found ctx msg panic = (panic, ctx)

  unfoldable pub assign_task : Context s → MsgAssignTask → Outcome Error (Unit {0}) × Context s
  unfolding assign_found
  assign_task ctx msg = assign_found ctx msg (Keeper.get_task s cdc ctx.store msg.task_id)

  unfoldable pub complete_found :
      Context s
      → MsgCompleteTask
      → Outcome Error (Option Task)
      → Outcome Error (Unit {0}) × Context s
  complete_found ctx msg (ok none) = (err (not_found msg.task_id), ctx)
  complete_found ctx msg (ok (some task)) =
      if not (bytes_eq task.assignee msg.assignee)
      then (err only_assignee, ctx)
      else if not (task.status == assigned)
      then (err must_be_assigned, ctx)
      else (let task' = record task { status = completed } in
          (
            ok tt,
            emit (record ctx { store = Keeper.set_task s cdc ctx.store task' })
                (complete_event msg),
          ))
  complete_found ctx msg (err e) = (err e, ctx)
  complete_found ctx msg panic = (panic, ctx)

  unfoldable pub complete_task : Context s → MsgCompleteTask → Outcome Error (Unit {0}) × Context s
  unfolding complete_found
  complete_task ctx msg = complete_found ctx msg (Keeper.get_task s cdc ctx.store msg.task_id)
