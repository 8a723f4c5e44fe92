-- ===== src/Taskreg/Registry.antt =====
-- What the registry promises: a map from ids to tasks, and the next id. No bytes, no keys, no events.
use poc_cometbft.Prelude.{
  ℕ, ◌+◌, ◌%◌, ◌^◌, ◌≤◌, ◌≡◌, not, Option, none, some, Outcome, ok, err, if◌then◌else◌, ◌==◌,
}
use poc_cometbft.Bytes.{Bytes, bytes_eq}
use poc_cometbft.Bytes.BigEndian.{IsU64}
use poc_cometbft.Taskreg.Types.{
  Task, IsTask, IsText, Error, opened, assigned, completed, MsgCreateTask, MsgAssignTask,
  MsgCompleteTask,
}
use poc_cometbft.Taskreg.MsgServer.{
  not_found, only_creator, only_assignee, must_be_open, must_be_assigned, new_task,
}

pub record Registry : Type 0 where
  pub tasks : ℕ → Option Task
  pub next : ℕ

abbrev pub put : Registry → Task → Registry
put r t = record r { tasks = λ id. if t.id == id then some t else r.tasks id }

unfoldable pub create : Registry → MsgCreateTask → Outcome Error ℕ × Registry
create r msg = (ok r.next, record (put r (new_task r.next msg)) { next = (r.next + 1) % 2 ^ 64 })

abbrev pub assigned_to : Task → Bytes → Task
assigned_to t who = record t { assignee = who; status = assigned }

abbrev pub done : Task → Task
done t = record t { status = completed }

unfoldable pub assign_at :
    Registry → MsgAssignTask → Option Task → Outcome Error (Unit {0}) × Registry
assign_at r msg none = (err (not_found msg.task_id), r)
assign_at r msg (some t) =
    if not (bytes_eq t.creator msg.creator)
    then (err only_creator, r)
    else if not (t.status == opened)
    then (err must_be_open, r)
    else (ok tt, put r (assigned_to t msg.assignee))

unfoldable pub assign : Registry → MsgAssignTask → Outcome Error (Unit {0}) × Registry
unfolding assign_at
assign r msg = assign_at r msg (r.tasks msg.task_id)

unfoldable pub complete_at :
    Registry → MsgCompleteTask → Option Task → Outcome Error (Unit {0}) × Registry
complete_at r msg none = (err (not_found msg.task_id), r)
complete_at r msg (some t) =
    if not (bytes_eq t.assignee msg.assignee)
    then (err only_assignee, r)
    else if not (t.status == assigned)
    then (err must_be_assigned, r)
    else (ok tt, put r (done t))

unfoldable pub complete : Registry → MsgCompleteTask → Outcome Error (Unit {0}) × Registry
unfolding complete_at
complete r msg = complete_at r msg (r.tasks msg.task_id)

-- Each task stands at its id, in the ranges of its fields, and below the next id.
pub record IsRegistry (r : Registry) : Type 0 where
  pub next_range : IsU64 r.next
  pub own_id : (id : ℕ) (t : Task) → r.tasks id ≡ some t → t.id ≡ id
  pub in_range : (id : ℕ) (t : Task) → r.tasks id ≡ some t → IsTask t
  pub fresh : (id : ℕ) → r.next ≤ id → r.tasks id ≡ none

-- The ranges of a message's fields.
abbrev pub IsCreate : MsgCreateTask → Type 0
IsCreate msg = IsText msg.creator × IsText msg.title × IsText msg.description

abbrev pub IsAssign : MsgAssignTask → Type 0
IsAssign msg = IsText msg.creator × IsU64 msg.task_id × IsText msg.assignee

abbrev pub IsComplete : MsgCompleteTask → Type 0
IsComplete msg = IsText msg.assignee × IsU64 msg.task_id
