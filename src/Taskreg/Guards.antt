-- ===== src/Taskreg/Guards.antt =====
-- When the handlers of msg_server.go succeed, and what they leave when they do not.
use poc_cometbft.Prelude.{
  ◌≡◌, ◌≢◌, ◌↔◌, refl, ap, Option, none, some, Outcome, ok, err, panic, inl, inr, ◌==◌, ==_iff,
  arith, Bool-cases,
}
use poc_cometbft.Bytes.{bytes_eq, bytes_eq_iff}
use poc_cometbft.Taskreg.Types.{Task, Error, opened, assigned, MsgAssignTask, MsgCompleteTask}
use poc_cometbft.Taskreg.Store.{KvStoreService, Codec}
use poc_cometbft.Taskreg.Keeper
use poc_cometbft.Taskreg.MsgServer
use poc_cometbft.Taskreg.MsgServer.{
  Context, emit, assign_event, complete_event, not_found, only_creator, only_assignee, must_be_open,
  must_be_assigned,
}
use poc_cometbft.Taskreg.Registry.{assigned_to, done}

module _ (s : KvStoreService) (cdc : Codec) (ctx : Context s) where
  assign_found_ok :
      (msg : MsgAssignTask) (o : Outcome Error (Option Task))
      → (MsgServer.assign_found s cdc ctx msg o).0 ≡ ok tt
      → (t : Task) × (o ≡ ok (some t)) × (t.creator ≡ msg.creator) × (t.status ≡ opened)
  unfolding MsgServer.assign_found
  assign_found_ok msg (ok none) h = cc
  assign_found_ok msg (ok (some t)) h =
      (t, refl, ground (arith, bytes_eq_iff t.creator msg.creator), ground arith)
  assign_found_ok msg (err e) h = cc
  assign_found_ok msg panic h = cc

  -- `AssignTask` succeeds only where the task is stored, is OPEN, and the sender is its creator.
  assign_task_ok :
      (msg : MsgAssignTask)
      → (MsgServer.assign_task s cdc ctx msg).0 ≡ ok tt
      → (t : Task) × (Keeper.get_task s cdc ctx.store msg.task_id ≡ ok (some t))
        × (t.creator ≡ msg.creator)
        × (t.status ≡ opened)
  unfolding MsgServer.assign_task
  assign_task_ok msg h = assign_found_ok msg _ h

  assign_task_runs :
      (msg : MsgAssignTask) (t : Task)
      → Keeper.get_task s cdc ctx.store msg.task_id ≡ ok (some t)
      → t.creator ≡ msg.creator
      → t.status ≡ opened
      → MsgServer.assign_task s cdc ctx msg ≡ (
        ok tt,
        emit s cdc
            (record ctx { store = Keeper.set_task s cdc ctx.store (assigned_to t msg.assignee) })
            (assign_event msg),
      )
  unfolding MsgServer.assign_task MsgServer.assign_found
  assign_task_runs msg t e mine free =
      rw (e, MsgServer.assign_found, (bytes_eq_iff _ _).1 mine, (==_iff _ _).1 free) refl

  assign_found_failed :
      (msg : MsgAssignTask) (o : Outcome Error (Option Task))
      → (MsgServer.assign_found s cdc ctx msg o).0 ≢ ok tt
      → (MsgServer.assign_found s cdc ctx msg o).1 ≡ ctx
  unfolding MsgServer.assign_found
  assign_found_failed msg (ok none) h = refl
  assign_found_failed msg (ok (some t)) h = elim (Bool-cases (bytes_eq t.creator msg.creator)) [
    | inr other ↦ rw other refl
    | inl mine ↦ elim (Bool-cases (t.status == opened)) [
      | inr closed ↦ rw (mine, closed) refl
      | inl free ↦ absurd (h (rw (mine, free) refl))
    ]
  ]
  assign_found_failed msg (err e) h = refl
  assign_found_failed msg panic h = refl

  -- `AssignTask` succeeds exactly where the task is stored, is OPEN, and the sender is its creator.
  -- Where it does not succeed, store and events are as before.
  pub assign_task_guard :
      (msg : MsgAssignTask)
      → (((MsgServer.assign_task s cdc ctx msg).0 ≡ ok tt) ↔ (
          (t : Task) × (Keeper.get_task s cdc ctx.store msg.task_id ≡ ok (some t))
          × (t.creator ≡ msg.creator)
          × (t.status ≡ opened)))
        × ((MsgServer.assign_task s cdc ctx msg).0 ≢ ok tt
            → (MsgServer.assign_task s cdc ctx msg).1 ≡ ctx)
  assign_task_guard msg = (
    (
      assign_task_ok msg,
      λ found. let (t, e, mine, free) = found in ap (λ r. r.0) (assign_task_runs msg t e mine free),
    ),
    unfold MsgServer.assign_task in assign_found_failed msg _,
  )

  complete_found_ok :
      (msg : MsgCompleteTask) (o : Outcome Error (Option Task))
      → (MsgServer.complete_found s cdc ctx msg o).0 ≡ ok tt
      → (t : Task) × (o ≡ ok (some t)) × (t.assignee ≡ msg.assignee) × (t.status ≡ assigned)
  unfolding MsgServer.complete_found
  complete_found_ok msg (ok none) h = cc
  complete_found_ok msg (ok (some t)) h =
      (t, refl, ground (arith, bytes_eq_iff t.assignee msg.assignee), ground arith)
  complete_found_ok msg (err e) h = cc
  complete_found_ok msg panic h = cc

  complete_found_failed :
      (msg : MsgCompleteTask) (o : Outcome Error (Option Task))
      → (MsgServer.complete_found s cdc ctx msg o).0 ≢ ok tt
      → (MsgServer.complete_found s cdc ctx msg o).1 ≡ ctx
  unfolding MsgServer.complete_found
  complete_found_failed msg (ok none) h = refl
  complete_found_failed msg (ok (some t)) h = elim (Bool-cases (bytes_eq t.assignee msg.assignee)) [
    | inr other ↦ rw other refl
    | inl mine ↦ elim (Bool-cases (t.status == assigned)) [
      | inr closed ↦ rw (mine, closed) refl
      | inl free ↦ absurd (h (rw (mine, free) refl))
    ]
  ]
  complete_found_failed msg (err e) h = refl
  complete_found_failed msg panic h = refl

  complete_task_runs :
      (msg : MsgCompleteTask) (t : Task)
      → Keeper.get_task s cdc ctx.store msg.task_id ≡ ok (some t)
      → t.assignee ≡ msg.assignee
      → t.status ≡ assigned
      → MsgServer.complete_task s cdc ctx msg ≡ (
        ok tt,
        emit s cdc
            (record ctx { store = Keeper.set_task s cdc ctx.store (done t) })
            (complete_event msg),
      )
  unfolding MsgServer.complete_task MsgServer.complete_found
  complete_task_runs msg t e mine free =
      rw (e, MsgServer.complete_found, (bytes_eq_iff _ _).1 mine, (==_iff _ _).1 free) refl

  -- `CompleteTask` succeeds exactly where the task is stored, is ASSIGNED, and the sender is its
  -- assignee. Where it does not succeed, store and events are as before.
  pub complete_task_guard :
      (msg : MsgCompleteTask)
      → (((MsgServer.complete_task s cdc ctx msg).0 ≡ ok tt) ↔ (
          (t : Task) × (Keeper.get_task s cdc ctx.store msg.task_id ≡ ok (some t))
          × (t.assignee ≡ msg.assignee)
          × (t.status ≡ assigned)))
        × ((MsgServer.complete_task s cdc ctx msg).0 ≢ ok tt
            → (MsgServer.complete_task s cdc ctx msg).1 ≡ ctx)
  unfolding MsgServer.complete_task
  complete_task_guard msg = (
    (
      complete_found_ok msg _,
      λ found.
          let (t, e, mine, free) = found in ap (λ r. r.0) (complete_task_runs msg t e mine free),
    ),
    complete_found_failed msg _,
  )
