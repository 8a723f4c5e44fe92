-- ===== src/Taskreg/Wire/ReadBack.antt =====
-- The messages of the types' *.pb.go: `Unmarshal` reads back what `Marshal` writes.
use mathlib.Core.Path.{subst}
use poc_cometbft.Prelude.{
  ℕ, ◌^◌, ◌<◌, ◌≡◌, refl, sym, [], ok, ◌==◌, ==_iff, arith, inl, inr, Bool-cases,
}
use poc_cometbft.Bytes.{Bytes}
use poc_cometbft.Bytes.BigEndian.{IsU64}
use poc_cometbft.Taskreg.Types.{
  Task, TaskStatus, IsTask, IsText, MsgCreateTask, MsgAssignTask, MsgCompleteTask,
}
use poc_cometbft.Taskreg.Protowire.{Protowire, WireLaws}
use poc_cometbft.Taskreg.Wire.{append_string, append_uint64}
use poc_cometbft.Taskreg.Wire.Steps.{Steps, Steps-nil, Steps-append, unmarshal-Steps, varint-Steps}
use poc_cometbft.Taskreg.Wire.Appends.{append_varint_field_lem, then_uint64, then_string}
use poc_cometbft.Taskreg.Wire.Messages.{
  uint64_status, task_status, zero_task, zero_create, zero_assign, zero_complete, marshal_task,
  task_field, unmarshal_task, marshal_create, create_field, unmarshal_create, marshal_id, id_field,
  unmarshal_id, marshal_assign, assign_field, unmarshal_assign, marshal_complete, complete_field,
  unmarshal_complete,
}

status_back : (status : TaskStatus) → status < 2 ^ 32 → task_status (uint64_status status) ≡ status
unfolding task_status uint64_status
status_back status h = ground arith

status_range : (status : TaskStatus) → status < 2 ^ 32 → IsU64 (uint64_status status)
unfolding uint64_status
status_range status h = ground arith

module _ (w : Protowire) (l : WireLaws w) where
  task-Steps : (t : Task) → IsTask t → Steps w (task_field w) zero_task (marshal_task w t) t
  unfolding task_field marshal_task
  task-Steps t h = status_steps
    where
      texts : Bytes
      texts =
          append_string w
            (append_string w
              (append_string w (append_string w (append_uint64 w [] 1 t.id) 2 t.title) 3
                t.description)
              4 t.creator)
            5 t.assignee

      text_steps : Steps w (task_field w) zero_task texts (record t { status = 0 })
      text_steps =
          then_string w l (task_field w) zero_task _ 5 (omega arith, omega arith)
            (λ v. record t { assignee = v; status = 0 }) t.assignee h.assignee_range (λ c. refl)
            (then_string w l (task_field w) zero_task _ 4 (omega arith, omega arith)
              (λ v. record t { creator = v; assignee = []; status = 0 }) t.creator h.creator_range
              (λ c. refl)
              (then_string w l (task_field w) zero_task _ 3 (omega arith, omega arith)
                (λ v. record t { description = v; creator = []; assignee = []; status = 0 })
                t.description h.description_range (λ c. refl)
                (then_string w l (task_field w) zero_task _ 2 (omega arith, omega arith)
                  (λ v. record t {
                    title = v;
                    description = [];
                    creator = [];
                    assignee = [];
                    status = 0;
                  })
                  t.title h.title_range (λ c. refl)
                  (then_uint64 w l (task_field w) zero_task [] 1 (omega arith, omega arith)
                    (λ v. record zero_task { id = v }) t.id h.id_range (λ c. refl)
                    (Steps-nil w (task_field w) zero_task)))))

      written_status :
          Steps w
            (task_field w)
            (record t { status = 0 })
            (w.append_varint (w.append_tag [] 6 w.varint_type) (uint64_status t.status))
            t
      written_status =
          subst
            (λ v.
              Steps w (task_field w) (record t { status = 0 })
                (w.append_varint (w.append_tag [] 6 w.varint_type) (uint64_status t.status))
                (record t { status = v }))
            (status_back t.status h.status_range)
            (varint-Steps w l (task_field w) (λ v. record t { status = task_status v })
              (record t { status = 0 }) 6 (uint64_status t.status) (omega arith, omega arith)
              (status_range t.status h.status_range) (λ c. refl))

      status_steps : Steps w (task_field w) zero_task (marshal_task w t) t
      status_steps = elim (Bool-cases (t.status == 0)) [
        | inl none_written ↦ rw none_written (
            subst (λ v. Steps w (task_field w) zero_task texts (record t { status = v }))
              (sym ((==_iff t.status 0).0 none_written)) text_steps)
        | inr written ↦ rw written (
            subst (λ c. Steps w (task_field w) zero_task c t)
              (sym (append_varint_field_lem w l texts 6 (uint64_status t.status)))
              (Steps-append w (task_field w) zero_task (record t { status = 0 }) t texts _
                text_steps written_status))
      ]

  -- `Unmarshal` into a zero Task reads back the Task that `Marshal` wrote, if its fields are in the
  -- ranges of their types.
  pub unmarshal-marshal_task :
      (t : Task) → IsTask t → unmarshal_task w zero_task (marshal_task w t) ≡ ok t
  unfolding unmarshal_task
  unmarshal-marshal_task t h =
      unmarshal-Steps w (task_field w) zero_task t (marshal_task w t) (task-Steps t h)

  -- A MsgCreateTask that is marshalled is read back, if its strings have lengths that Go can give them.
  pub unmarshal-marshal_create :
      (m : MsgCreateTask)
      → IsText m.creator
      → IsText m.title
      → IsText m.description
      → unmarshal_create w zero_create (marshal_create w m) ≡ ok m
  unfolding unmarshal_create create_field marshal_create
  unmarshal-marshal_create m hc ht hd =
      unmarshal-Steps w (create_field w) zero_create m (marshal_create w m) (
        then_string w l (create_field w) zero_create _ 3 (omega arith, omega arith)
          (λ v. record m { description = v }) m.description hd (λ c. refl)
          (then_string w l (create_field w) zero_create _ 2 (omega arith, omega arith)
            (λ v. record m { title = v; description = [] }) m.title ht (λ c. refl)
            (then_string w l (create_field w) zero_create [] 1 (omega arith, omega arith)
              (λ v. record zero_create { creator = v }) m.creator hc (λ c. refl)
              (Steps-nil w (create_field w) zero_create))))

  -- A MsgCreateTaskResponse that is marshalled is read back, if its id is a uint64.
  pub unmarshal-marshal_id : (id : ℕ) → IsU64 id → unmarshal_id w 0 (marshal_id w id) ≡ ok id
  unfolding unmarshal_id id_field marshal_id
  unmarshal-marshal_id id h = unmarshal-Steps w (id_field w) 0 id (marshal_id w id) (
      then_uint64 w l (id_field w) 0 [] 1 (omega arith, omega arith) (λ v. v) id h (λ c. refl)
        (Steps-nil w (id_field w) 0))

  -- A MsgAssignTask that is marshalled is read back, if its fields are in the ranges of their types.
  pub unmarshal-marshal_assign :
      (m : MsgAssignTask)
      → IsText m.creator
      → IsU64 m.task_id
      → IsText m.assignee
      → unmarshal_assign w zero_assign (marshal_assign w m) ≡ ok m
  unfolding unmarshal_assign assign_field marshal_assign
  unmarshal-marshal_assign m hc hi ha =
      unmarshal-Steps w (assign_field w) zero_assign m (marshal_assign w m) (
        then_string w l (assign_field w) zero_assign _ 3 (omega arith, omega arith)
          (λ v. record m { assignee = v }) m.assignee ha (λ c. refl)
          (then_uint64 w l (assign_field w) zero_assign _ 2 (omega arith, omega arith)
            (λ v. record m { task_id = v; assignee = [] }) m.task_id hi (λ c. refl)
            (then_string w l (assign_field w) zero_assign [] 1 (omega arith, omega arith)
              (λ v. record zero_assign { creator = v }) m.creator hc (λ c. refl)
              (Steps-nil w (assign_field w) zero_assign))))

  -- A MsgCompleteTask that is marshalled is read back, if its fields are in the ranges of their types.
  pub unmarshal-marshal_complete :
      (m : MsgCompleteTask)
      → IsText m.assignee
      → IsU64 m.task_id
      → unmarshal_complete w zero_complete (marshal_complete w m) ≡ ok m
  unfolding unmarshal_complete complete_field marshal_complete
  unmarshal-marshal_complete m ha hi =
      unmarshal-Steps w (complete_field w) zero_complete m (marshal_complete w m) (
        then_uint64 w l (complete_field w) zero_complete _ 2 (omega arith, omega arith)
          (λ v. record m { task_id = v }) m.task_id hi (λ c. refl)
          (then_string w l (complete_field w) zero_complete [] 1 (omega arith, omega arith)
            (λ v. record zero_complete { assignee = v }) m.assignee ha (λ c. refl)
            (Steps-nil w (complete_field w) zero_complete)))
