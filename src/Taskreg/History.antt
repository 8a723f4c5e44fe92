-- ===== src/Taskreg/History.antt =====
-- Sequences of messages, as the chain delivers them.
use mathlib.Core.Path.{subst}
use mathlib.Core.Option.{some-injective}
use poc_cometbft.Prelude.{
  ℕ, ◌+◌, ◌^◌, ◌≤◌, ◌<◌, ◌≡◌, refl, List, [], ◌∷◌, Option, none, some, inl, inr, ◌==◌, arith,
  Bool-cases, length,
}
use poc_cometbft.Bytes.{bytes_eq}
use poc_cometbft.Taskreg.Types.{
  Task, IsTask, opened, assigned, MsgCreateTask, MsgAssignTask, MsgCompleteTask,
}
use poc_cometbft.Taskreg.Store.{KvStoreService, StoreLaws, Codec, CodecLaws}
use poc_cometbft.Taskreg.MsgServer
use poc_cometbft.Taskreg.MsgServer.{Context, new_task}
use poc_cometbft.Taskreg.Registry
use poc_cometbft.Taskreg.Registry.{
  Registry, IsRegistry, IsCreate, IsAssign, IsComplete, put, assigned_to, done,
}
use poc_cometbft.Taskreg.Refines.{
  Abstracts, create_task-refines, assign_task-refines, complete_task-refines, new_task-IsTask,
  assigned_to-IsTask, done-IsTask,
}

pub data Msg : Type 0 where
  create : MsgCreateTask → Msg
  assign : MsgAssignTask → Msg
  complete : MsgCompleteTask → Msg

abbrev pub IsMsg : Msg → Type 0
IsMsg (create msg) = IsCreate msg
IsMsg (assign msg) = IsAssign msg
IsMsg (complete msg) = IsComplete msg

abbrev pub AllMsg : List Msg → Type 0
AllMsg [] = Unit
AllMsg (msg ∷ msgs) = IsMsg msg × AllMsg msgs

unfoldable pub apply : Registry → Msg → Registry
apply r (create msg) = (Registry.create r msg).1
apply r (assign msg) = (Registry.assign r msg).1
apply r (complete msg) = (Registry.complete r msg).1

unfoldable pub apply_all : Registry → List Msg → Registry
apply_all r [] = r
apply_all r (msg ∷ msgs) = apply_all (apply r msg) msgs

module _ (s : KvStoreService) (cdc : Codec) where
  -- The context after a message, whether or not its handler failed.
  unfoldable pub deliver : Context s → Msg → Context s
  deliver ctx (create msg) = (MsgServer.create_task s cdc ctx msg).1
  deliver ctx (assign msg) = (MsgServer.assign_task s cdc ctx msg).1
  deliver ctx (complete msg) = (MsgServer.complete_task s cdc ctx msg).1

  unfoldable pub deliver_all : Context s → List Msg → Context s
  deliver_all ctx [] = ctx
  deliver_all ctx (msg ∷ msgs) = deliver_all (deliver ctx msg) msgs

-- A task that replaces one of its id, or takes the next one, keeps the registry well formed.
replace-IsRegistry :
    (r : Registry) (t : Task) → IsRegistry r → IsTask t → t.id < r.next → IsRegistry (put r t)
replace-IsRegistry r t v h below = record {
  next_range = v.next_range;
  own_id = λ id u e. ground (arith, v.own_id id u);
  in_range = λ id u e. elim (Bool-cases (t.id == id)) [
    | inl same ↦ subst IsTask (some-injective _ _ (rw same at e)) h
    | inr other ↦ v.in_range id u (rw other at e)
  ];
  fresh = λ id above. ground (arith, v.fresh id);
}

stored_below : (r : Registry) (id : ℕ) (t : Task) → IsRegistry r → r.tasks id ≡ some t → id < r.next
stored_below r id t v e = ground (arith, v.fresh id)

create-IsRegistry :
    (r : Registry) (msg : MsgCreateTask)
    → IsRegistry r
    → IsCreate msg
    → r.next + 1 < 2 ^ 64
    → IsRegistry (Registry.create r msg).1
unfolding Registry.create
create-IsRegistry r msg v h room = record {
  next_range = omega arith;
  own_id = λ id u e. ground (arith, v.own_id id u);
  in_range = λ id u e. elim (Bool-cases (r.next == id)) [
    | inl same ↦ subst IsTask (some-injective _ _ (rw same at e)) (new_task-IsTask r msg v h)
    | inr other ↦ v.in_range id u (rw other at e)
  ];
  fresh = λ id above. ground (arith, v.fresh id);
}

assign_at-IsRegistry :
    (r : Registry) (msg : MsgAssignTask) (o : Option Task)
    → r.tasks msg.task_id ≡ o
    → IsRegistry r
    → IsAssign msg
    → IsRegistry (Registry.assign_at r msg o).1
unfolding Registry.assign_at
assign_at-IsRegistry r msg none e v h = v
assign_at-IsRegistry r msg (some t) e v h = elim (Bool-cases (bytes_eq t.creator msg.creator)) [
  | inr other ↦ rw other v
  | inl mine ↦ elim (Bool-cases (t.status == opened)) [
    | inr closed ↦ rw (mine, closed) v
    | inl free ↦
        rw (mine, free)
          (replace-IsRegistry r _ v (assigned_to-IsTask t msg (v.in_range _ t e) h)
            (omega (arith, stored_below r _ t v e, v.own_id _ t e)))
  ]
]

complete_at-IsRegistry :
    (r : Registry) (msg : MsgCompleteTask) (o : Option Task)
    → r.tasks msg.task_id ≡ o
    → IsRegistry r
    → IsRegistry (Registry.complete_at r msg o).1
unfolding Registry.complete_at
complete_at-IsRegistry r msg none e v = v
complete_at-IsRegistry r msg (some t) e v = elim (Bool-cases (bytes_eq t.assignee msg.assignee)) [
  | inr other ↦ rw other v
  | inl mine ↦ elim (Bool-cases (t.status == assigned)) [
    | inr closed ↦ rw (mine, closed) v
    | inl free ↦
        rw (mine, free)
          (replace-IsRegistry r _ v (done-IsTask t (v.in_range _ t e))
            (omega (arith, stored_below r _ t v e, v.own_id _ t e)))
  ]
]

-- While an id is left, a message keeps the registry well formed.
pub apply-IsRegistry :
    (r : Registry) (msg : Msg)
    → IsRegistry r
    → IsMsg msg
    → r.next + 1 < 2 ^ 64
    → IsRegistry (apply r msg)
unfolding apply Registry.assign Registry.complete
apply-IsRegistry r (create msg) v h room = create-IsRegistry r msg v h room
apply-IsRegistry r (assign msg) v h room = assign_at-IsRegistry r msg _ refl v h
apply-IsRegistry r (complete msg) v h room = complete_at-IsRegistry r msg _ refl v

-- A message takes one id at most.
pub next-apply : (r : Registry) (msg : Msg) → r.next + 1 < 2 ^ 64 → (apply r msg).next ≤ r.next + 1
unfolding apply Registry.create Registry.assign Registry.complete Registry.assign_at
    Registry.complete_at
next-apply r (create msg) room = omega arith
next-apply r (assign msg) room = ground arith
next-apply r (complete msg) room = ground arith

module _ (s : KvStoreService) (sl : StoreLaws s) (cdc : Codec) (cl : CodecLaws cdc) where
  pub deliver-refines :
      (ctx : Context s) (r : Registry) (msg : Msg)
      → Abstracts s cdc ctx.store r
      → IsRegistry r
      → IsMsg msg
      → Abstracts s cdc (deliver s cdc ctx msg).store (apply r msg)
  unfolding deliver apply
  deliver-refines ctx r (create msg) a v h = (create_task-refines s sl cdc cl ctx r msg a v h).1
  deliver-refines ctx r (assign msg) a v h = (assign_task-refines s sl cdc cl ctx r msg a v h).1
  deliver-refines ctx r (complete msg) a v h = (complete_task-refines s sl cdc cl ctx r msg a v h).1

  -- Any messages with fields in the ranges of their types, delivered to a store that holds a well-formed registry with an id left for each of
  -- them, leave a store that holds the well-formed registry to which they lead.
  pub deliver_all-refines :
      (msgs : List Msg) (ctx : Context s) (r : Registry)
      → Abstracts s cdc ctx.store r
      → IsRegistry r
      → AllMsg msgs
      → r.next + length msgs < 2 ^ 64
      → Abstracts s cdc (deliver_all s cdc ctx msgs).store (apply_all r msgs)
        × IsRegistry (apply_all r msgs)
  unfolding deliver_all apply_all
  deliver_all-refines [] ctx r a v h room = (a, v)
  deliver_all-refines (msg ∷ msgs) ctx r a v h room =
      deliver_all-refines msgs (deliver s cdc ctx msg) (apply r msg)
        (deliver-refines ctx r msg a v h.0) (apply-IsRegistry r msg v h.0 (omega arith)) h.1
        (omega (arith, next-apply r msg (omega arith)))
