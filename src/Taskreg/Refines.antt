-- ===== src/Taskreg/Refines.antt =====
-- The handlers of msg_server.go implement the registry.
use poc_cometbft.Prelude.{
  ℕ, ◌≡◌, refl, ◌∙◌, Option, none, some, Outcome, ok, inl, inr, ◌==◌, arith, Bool-cases,
}
use poc_cometbft.Bytes.{bytes_eq}
use poc_cometbft.Bytes.BigEndian.{IsU64}
use poc_cometbft.Taskreg.Types.{
  Task, IsTask, Error, opened, assigned, MsgCreateTask, MsgAssignTask, MsgCompleteTask,
}
use poc_cometbft.Taskreg.Store.{KvStoreService, StoreLaws, Codec, CodecLaws}
use poc_cometbft.Taskreg.Keeper
use poc_cometbft.Taskreg.MsgServer
use poc_cometbft.Taskreg.MsgServer.{Context, new_task}
use poc_cometbft.Taskreg.Access.{
  get_task-set_task, get_task-set_next_task_id, next-set_task, next-set_next_task_id,
}
use poc_cometbft.Taskreg.Registry
use poc_cometbft.Taskreg.Registry.{
  Registry, IsRegistry, IsCreate, IsAssign, IsComplete, put, assigned_to, done,
}

-- The keeper reads from the store what the registry has.
pub record Abstracts (s : KvStoreService) (cdc : Codec) (st : s.Store) (r : Registry) : Type 0 where
  pub tasks_at : (id : ℕ) → IsU64 id → Keeper.get_task s cdc st id ≡ ok (r.tasks id)
  pub next_at : Keeper.get_next_task_id s cdc st ≡ ok r.next

pub new_task-IsTask :
    (r : Registry) (msg : MsgCreateTask)
    → IsRegistry r
    → IsCreate msg
    → IsTask (new_task r.next msg)
new_task-IsTask r msg v h = let next_range = v.next_range in omega arith

pub assigned_to-IsTask :
    (t : Task) (msg : MsgAssignTask) → IsTask t → IsAssign msg → IsTask (assigned_to t msg.assignee)
assigned_to-IsTask t msg v h = omega arith

pub done-IsTask : (t : Task) → IsTask t → IsTask (done t)
done-IsTask t v = omega arith

module _ (s : KvStoreService) (sl : StoreLaws s) (cdc : Codec) (cl : CodecLaws cdc) where
  put-Abstracts :
      (st : s.Store) (r : Registry) (t : Task)
      → Abstracts s cdc st r
      → IsTask t
      → Abstracts s cdc (Keeper.set_task s cdc st t) (put r t)
  put-Abstracts st r t a h = record {
    tasks_at =
        λ id hid. get_task-set_task s sl cdc cl st t id h hid ∙ ground (arith, a.tasks_at id hid);
    next_at = next-set_task s sl cdc cl st t ∙ a.next_at;
  }

  next-Abstracts :
      (st : s.Store) (r : Registry) (n : ℕ)
      → Abstracts s cdc st r
      → IsU64 n
      → Abstracts s cdc (Keeper.set_next_task_id s cdc st n) (record r { next = n })
  next-Abstracts st r n a h = record {
    tasks_at = λ id hid. get_task-set_next_task_id s sl cdc cl st n id ∙ a.tasks_at id hid;
    next_at = next-set_next_task_id s sl cdc cl st n h;
  }

  -- On a store that holds a well-formed registry, `CreateTask` of a message with fields in the ranges of
  -- their types answers and stores what the registry's `create` does.
  pub create_task-refines :
      (ctx : Context s) (r : Registry) (msg : MsgCreateTask)
      → Abstracts s cdc ctx.store r
      → IsRegistry r
      → IsCreate msg
      → ((MsgServer.create_task s cdc ctx msg).0 ≡ (Registry.create r msg).0)
        × Abstracts s cdc (MsgServer.create_task s cdc ctx msg).1.store (Registry.create r msg).1
  unfolding MsgServer.create_task Registry.create
  create_task-refines ctx r msg a v h = rw a.next_at (
    refl,
    next-Abstracts _ _ _
        (put-Abstracts ctx.store r (new_task r.next msg) a (new_task-IsTask r msg v h))
        (omega arith),
  )

  -- The same outcome, and the registry of one is what the other stores.
  Agree : Outcome Error (Unit {0}) × Context s → Outcome Error (Unit {0}) × Registry → Type 0
  Agree x y = (x.0 ≡ y.0) × Abstracts s cdc x.1.store y.1

  assign_found-refines :
      (ctx : Context s) (r : Registry) (msg : MsgAssignTask) (o : Option Task)
      → Abstracts s cdc ctx.store r
      → ((t : Task) → o ≡ some t → IsTask t)
      → IsAssign msg
      → Agree (MsgServer.assign_found s cdc ctx msg (ok o)) (Registry.assign_at r msg o)
  unfolding MsgServer.assign_found Registry.assign_at Agree
  assign_found-refines ctx r msg none a v h = (refl, a)
  assign_found-refines ctx r msg (some t) a v h =
      elim (Bool-cases (bytes_eq t.creator msg.creator)) [
        | inr other ↦ rw other (refl, a)
        | inl mine ↦ elim (Bool-cases (t.status == opened)) [
          | inr closed ↦ rw (mine, closed) (refl, a)
          | inl free ↦
              rw (mine, free)
                (refl, put-Abstracts ctx.store r _ a (assigned_to-IsTask t msg (v t refl) h))
        ]
      ]

  -- On a store that holds a well-formed registry, `AssignTask` of a message with fields in the ranges of
  -- their types answers and stores what the registry's `assign` does, on every branch.
  pub assign_task-refines :
      (ctx : Context s) (r : Registry) (msg : MsgAssignTask)
      → Abstracts s cdc ctx.store r
      → IsRegistry r
      → IsAssign msg
      → ((MsgServer.assign_task s cdc ctx msg).0 ≡ (Registry.assign r msg).0)
        × Abstracts s cdc (MsgServer.assign_task s cdc ctx msg).1.store (Registry.assign r msg).1
  unfolding MsgServer.assign_task Registry.assign Agree
  assign_task-refines ctx r msg a v h =
      rw (a.tasks_at msg.task_id h.1)
        (assign_found-refines ctx r msg (r.tasks msg.task_id) a (v.in_range msg.task_id) h)

  complete_found-refines :
      (ctx : Context s) (r : Registry) (msg : MsgCompleteTask) (o : Option Task)
      → Abstracts s cdc ctx.store r
      → ((t : Task) → o ≡ some t → IsTask t)
      → Agree (MsgServer.complete_found s cdc ctx msg (ok o)) (Registry.complete_at r msg o)
  unfolding MsgServer.complete_found Registry.complete_at Agree
  complete_found-refines ctx r msg none a v = (refl, a)
  complete_found-refines ctx r msg (some t) a v =
      elim (Bool-cases (bytes_eq t.assignee msg.assignee)) [
        | inr other ↦ rw other (refl, a)
        | inl mine ↦ elim (Bool-cases (t.status == assigned)) [
          | inr closed ↦ rw (mine, closed) (refl, a)
          | inl free ↦
              rw (mine, free) (refl, put-Abstracts ctx.store r _ a (done-IsTask t (v t refl)))
        ]
      ]

  -- On a store that holds a well-formed registry, `CompleteTask` of a message with fields in the ranges
  -- of their types answers and stores what the registry's `complete` does, on every branch.
  pub complete_task-refines :
      (ctx : Context s) (r : Registry) (msg : MsgCompleteTask)
      → Abstracts s cdc ctx.store r
      → IsRegistry r
      → IsComplete msg
      → ((MsgServer.complete_task s cdc ctx msg).0 ≡ (Registry.complete r msg).0)
        × Abstracts s cdc
            (MsgServer.complete_task s cdc ctx msg).1.store
            (Registry.complete r msg).1
  unfolding MsgServer.complete_task Registry.complete Agree
  complete_task-refines ctx r msg a v h =
      rw (a.tasks_at msg.task_id h.1)
        (complete_found-refines ctx r msg (r.tasks msg.task_id) a (v.in_range msg.task_id))
