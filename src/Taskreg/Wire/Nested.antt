-- ===== src/Taskreg/Wire/Nested.antt =====
-- The messages of the types' *.pb.go that hold tasks: `Unmarshal` reads back what `Marshal` writes.
use mathlib.Core.Path.{subst}
use mathlib.Core.List.{append-nil, append_assoc}
use poc_cometbft.Prelude.{
  ℕ, ◌≡◌, refl, sym, ap, ◌∙◌, List, [], ◌∷◌, ◌++◌, false, Outcome, ok, ◌>>=◌, ltb, length, arith,
  inl, inr, Bool-cases, All,
}
use poc_cometbft.Bytes.{Bytes}
use poc_cometbft.Bytes.BigEndian.{IsU64}
use poc_cometbft.Taskreg.Types.{
  Task, IsTask, IsText, GenesisState, MsgCreateTask, MsgAssignTask, MsgCompleteTask,
}
use poc_cometbft.Taskreg.Protowire.{Protowire, WireLaws}
use poc_cometbft.Taskreg.Wire.{append_message, unmarshal, unmarshal_loop}
use poc_cometbft.Taskreg.Wire.Steps.{Steps, Steps-nil, unmarshal-Steps, message_read}
use poc_cometbft.Taskreg.Wire.Appends.{then_uint64, then_message}
use poc_cometbft.Taskreg.Wire.ReadBack.{
  unmarshal-marshal_task, unmarshal-marshal_create, unmarshal-marshal_assign,
  unmarshal-marshal_complete, unmarshal-marshal_id,
}
use poc_cometbft.Taskreg.Wire.Messages.{
  zero_create, zero_assign, zero_complete, marshal_create, unmarshal_create, marshal_assign,
  unmarshal_assign, marshal_complete, unmarshal_complete, marshal_id, unmarshal_id, zero_task,
  zero_genesis, marshal_task, unmarshal_task, append_tasks, marshal_genesis, genesis_field,
  unmarshal_genesis, marshal_response, response_field, unmarshal_response,
}

module _ (w : Protowire) (l : WireLaws w) where
  -- A task of a length that a Go slice can have.
  abbrev pub Fits : Task → Type 0
  Fits t = IsTask t × IsText (marshal_task w t)

  read_task_into :
      (before : List Task) (t : Task) (rest : Bytes)
      → Fits t
      → genesis_field w
          (record { tasks = before; next_task_id = 0 })
          1
          w.bytes_type
          (w.append_bytes [] (marshal_task w t) ++ rest)
        ≡ ok (record { tasks = before ++ (t ∷ []); next_task_id = 0 }, rest)
  unfolding genesis_field
  read_task_into before t rest h = message_read w l (marshal_task w t) _ _ rest h.1 (
      ap (λ r. r >>= (λ task. ok (record { tasks = before ++ (task ∷ []); next_task_id = 0 })))
        (unmarshal-marshal_task w l t h.0))

  tasks-Steps :
      (before ts : List Task) (b : Bytes)
      → All Fits ts
      → Steps w (genesis_field w) zero_genesis b (record { tasks = before; next_task_id = 0 })
      → Steps w
          (genesis_field w)
          zero_genesis
          (append_tasks w b ts)
          (record { tasks = before ++ ts; next_task_id = 0 })
  unfolding append_tasks
  tasks-Steps before [] b h s =
      subst
        (λ ts. Steps w (genesis_field w) zero_genesis b (record { tasks = ts; next_task_id = 0 }))
        (sym (append-nil before)) s
  tasks-Steps before (t ∷ ts) b h s =
      subst
        (λ us.
          Steps w (genesis_field w) zero_genesis
            (append_tasks w (append_message w b 1 (marshal_task w t)) ts)
            (record { tasks = us; next_task_id = 0 }))
        (append_assoc before (t ∷ []) ts)
        (tasks-Steps (before ++ (t ∷ [])) ts (append_message w b 1 (marshal_task w t)) h.1 (
          then_message w l (genesis_field w) zero_genesis b 1 (omega arith, omega arith)
            (record { tasks = before; next_task_id = 0 })
            (record { tasks = before ++ (t ∷ []); next_task_id = 0 }) (marshal_task w t)
            (λ rest. read_task_into before t rest h.0) s))

  -- A GenesisState that is marshalled is read back, tasks and next id, if its fields are in the ranges of
  -- their types and each marshalled task has a length that Go can give it.
  pub unmarshal-marshal_genesis :
      (gs : GenesisState)
      → All Fits gs.tasks
      → IsU64 gs.next_task_id
      → unmarshal_genesis w zero_genesis (marshal_genesis w gs) ≡ ok gs
  unfolding unmarshal_genesis genesis_field marshal_genesis
  unmarshal-marshal_genesis gs h hn =
      unmarshal-Steps w (genesis_field w) zero_genesis gs (marshal_genesis w gs) (
        then_uint64 w l (genesis_field w) zero_genesis _ 2 (omega arith, omega arith)
          (λ v. record gs { next_task_id = v }) gs.next_task_id hn (λ c. refl)
          (tasks-Steps [] gs.tasks [] h (Steps-nil w (genesis_field w) zero_genesis)))

  -- Only the zero task is marshalled to nothing.
  empty-zero_task : (t : Task) → IsTask t → marshal_task w t ≡ [] → t ≡ zero_task
  unfolding unmarshal_task unmarshal unmarshal_loop
  empty-zero_task t h e =
      same_ok (sym (unmarshal-marshal_task w l t h) ∙ ap (unmarshal_task w zero_task) e)
    where
      same_ok : {a b : Task} → ◌≡◌ {A = Outcome Bytes Task} (ok a) (ok b) → a ≡ b
      same_ok p = cc

  -- A QueryTaskResponse that is marshalled is read back, if the task's fields are in the ranges of their
  -- types and the marshalled task has a length that Go can give it.
  pub unmarshal-marshal_response :
      (t : Task) → Fits t → unmarshal_response w zero_task (marshal_response w t) ≡ ok t
  unfolding unmarshal_response response_field marshal_response
  unmarshal-marshal_response t h =
      unmarshal-Steps w (response_field w) zero_task t (marshal_response w t) steps
    where
      no_bytes : (b : Bytes) → ltb 0 (length b) ≡ false → b ≡ []
      no_bytes [] e = refl
      no_bytes (c ∷ b) e = absurd (ground arith)

      steps : Steps w (response_field w) zero_task (marshal_response w t) t
      steps = elim (Bool-cases (ltb 0 (length (marshal_task w t)))) [
        | inl some_bytes ↦ rw some_bytes (
            then_message w l (response_field w) zero_task [] 1 (omega arith, omega arith) zero_task
              t (marshal_task w t)
              (λ rest.
                message_read w l (marshal_task w t) _ _ rest h.1 (unmarshal-marshal_task w l t h.0))
              (Steps-nil w (response_field w) zero_task))
        | inr none_written ↦ rw none_written (
            subst (Steps w (response_field w) zero_task [])
              (sym (empty-zero_task t h.0 (no_bytes _ none_written)))
              (Steps-nil w (response_field w) zero_task))
      ]

  -- A Task, a MsgCreateTask, a MsgAssignTask, a MsgCompleteTask, a message that is an id alone, a
  -- QueryTaskResponse and a GenesisState that are marshalled are read back, if their strings have lengths
  -- that Go can give them, the ids are uint64s, and the fields of the tasks are in the ranges of their
  -- types and the bytes of each task have a length that Go can give them.
  pub unmarshal-marshal_messages :
      (create : MsgCreateTask) (assign : MsgAssignTask) (complete : MsgCompleteTask) (id : ℕ)
      (t : Task) (gs : GenesisState)
      → IsText create.creator × IsText create.title × IsText create.description
      → IsText assign.creator × IsU64 assign.task_id × IsText assign.assignee
      → IsText complete.assignee × IsU64 complete.task_id
      → IsU64 id
      → Fits t
      → All Fits gs.tasks
      → IsU64 gs.next_task_id
      → (unmarshal_task w zero_task (marshal_task w t) ≡ ok t)
        × (unmarshal_create w zero_create (marshal_create w create) ≡ ok create)
        × (unmarshal_assign w zero_assign (marshal_assign w assign) ≡ ok assign)
        × (unmarshal_complete w zero_complete (marshal_complete w complete) ≡ ok complete)
        × (unmarshal_id w 0 (marshal_id w id) ≡ ok id)
        × (unmarshal_response w zero_task (marshal_response w t) ≡ ok t)
        × (unmarshal_genesis w zero_genesis (marshal_genesis w gs) ≡ ok gs)
  unmarshal-marshal_messages create assign complete id t gs hc ha hm hi ht hts hn = (
    unmarshal-marshal_task w l t ht.0,
    unmarshal-marshal_create w l create hc.0 hc.1 hc.2,
    unmarshal-marshal_assign w l assign ha.0 ha.1 ha.2,
    unmarshal-marshal_complete w l complete hm.0 hm.1,
    unmarshal-marshal_id w l id hi,
    unmarshal-marshal_response t ht,
    unmarshal-marshal_genesis gs hts hn,
  )
