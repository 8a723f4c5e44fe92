-- ===== src/Taskreg/Wire/Messages.antt =====
-- mychain/x/taskreg/types/{types,tx,genesis,query}.pb.go: Marshal, Size and Unmarshal of the messages.
use poc_cometbft.Prelude.{
  ℕ, ◌+◌, ◌-◌, ◌%◌, ◌^◌, List, [], ◌∷◌, ◌++◌, Outcome, ok, if◌then◌else◌, ◌==◌, ltb, length, ◌>>=◌,
}
use poc_cometbft.Bytes.{Bytes}
use poc_cometbft.Taskreg.Types.{
  Task, TaskStatus, GenesisState, MsgCreateTask, MsgAssignTask, MsgCompleteTask,
}
use poc_cometbft.Taskreg.Protowire.{Protowire}
use poc_cometbft.Taskreg.Wire.{
  append_string, append_uint64, append_message, size_string, size_uint64, varint_field,
  string_field, message_field, other_field, unmarshal,
}

-- `uint64(m.Status)`, which extends the sign of an int32, and `TaskStatus(v)`.
unfoldable pub uint64_status : TaskStatus → ℕ
uint64_status status = if ltb status (2 ^ 31) then status else status + (2 ^ 64 - 2 ^ 32)

unfoldable pub task_status : ℕ → TaskStatus
task_status v = v % 2 ^ 32

abbrev pub zero_task : Task
zero_task = record { id = 0; title = []; description = []; creator = []; assignee = []; status = 0 }

abbrev pub zero_create : MsgCreateTask
zero_create = record { creator = []; title = []; description = [] }

abbrev pub zero_assign : MsgAssignTask
zero_assign = record { creator = []; task_id = 0; assignee = [] }

abbrev pub zero_complete : MsgCompleteTask
zero_complete = record { assignee = []; task_id = 0 }

abbrev pub zero_genesis : GenesisState
zero_genesis = record { tasks = []; next_task_id = 0 }

module _ (w : Protowire) where
  unfoldable pub marshal_task : Task → Bytes
  unfolding append_string append_uint64
  marshal_task m =
      let b = append_uint64 w [] 1 m.id in
      let b = append_string w b 2 m.title in
      let b = append_string w b 3 m.description in
      let b = append_string w b 4 m.creator in
      let b = append_string w b 5 m.assignee in
      if m.status == 0
      then b
      else w.append_varint (w.append_tag b 6 w.varint_type) (uint64_status m.status)

  unfoldable pub size_task : Task → ℕ
  unfolding size_string size_uint64
  size_task m =
      size_uint64 w 1 m.id
      + size_string w 2 m.title
      + size_string w 3 m.description
      + size_string w 4 m.creator
      + size_string w 5 m.assignee
      + (if m.status == 0 then 0 else w.size_tag 6 + w.size_varint (uint64_status m.status))

  unfoldable pub task_field : Task → ℕ → ℕ → Bytes → Outcome Bytes (Task × Bytes)
  unfolding varint_field string_field other_field
  task_field m num typ b =
      if num == 1
      then varint_field w b (λ v. record m { id = v })
      else if num == 2
      then string_field w b (λ v. record m { title = v })
      else if num == 3
      then string_field w b (λ v. record m { description = v })
      else if num == 4
      then string_field w b (λ v. record m { creator = v })
      else if num == 5
      then string_field w b (λ v. record m { assignee = v })
      else if num == 6
      then varint_field w b (λ v. record m { status = task_status v })
      else other_field w m b typ

  unfoldable pub unmarshal_task : Task → Bytes → Outcome Bytes Task
  unfolding unmarshal
  unmarshal_task = unmarshal w task_field

  unfoldable pub marshal_create : MsgCreateTask → Bytes
  unfolding append_string
  marshal_create m =
      append_string w (append_string w (append_string w [] 1 m.creator) 2 m.title) 3 m.description

  unfoldable pub size_create : MsgCreateTask → ℕ
  size_create m =
      size_string w 1 m.creator + size_string w 2 m.title + size_string w 3 m.description

  unfoldable pub create_field :
      MsgCreateTask → ℕ → ℕ → Bytes → Outcome Bytes (MsgCreateTask × Bytes)
  create_field m num typ b =
      if num == 1
      then string_field w b (λ v. record m { creator = v })
      else if num == 2
      then string_field w b (λ v. record m { title = v })
      else if num == 3
      then string_field w b (λ v. record m { description = v })
      else other_field w m b typ

  unfoldable pub unmarshal_create : MsgCreateTask → Bytes → Outcome Bytes MsgCreateTask
  unmarshal_create = unmarshal w create_field

  -- MsgCreateTaskResponse and QueryTaskRequest: an id alone.
  unfoldable pub marshal_id : ℕ → Bytes
  marshal_id id = append_uint64 w [] 1 id

  unfoldable pub size_id : ℕ → ℕ
  size_id id = size_uint64 w 1 id

  unfoldable pub id_field : ℕ → ℕ → ℕ → Bytes → Outcome Bytes (ℕ × Bytes)
  id_field id num typ b = if num == 1 then varint_field w b (λ v. v) else other_field w id b typ

  unfoldable pub unmarshal_id : ℕ → Bytes → Outcome Bytes ℕ
  unmarshal_id = unmarshal w id_field

  unfoldable pub marshal_assign : MsgAssignTask → Bytes
  marshal_assign m =
      append_string w (append_uint64 w (append_string w [] 1 m.creator) 2 m.task_id) 3 m.assignee

  unfoldable pub size_assign : MsgAssignTask → ℕ
  size_assign m = size_string w 1 m.creator + size_uint64 w 2 m.task_id + size_string w 3 m.assignee

  unfoldable pub assign_field :
      MsgAssignTask → ℕ → ℕ → Bytes → Outcome Bytes (MsgAssignTask × Bytes)
  assign_field m num typ b =
      if num == 1
      then string_field w b (λ v. record m { creator = v })
      else if num == 2
      then varint_field w b (λ v. record m { task_id = v })
      else if num == 3
      then string_field w b (λ v. record m { assignee = v })
      else other_field w m b typ

  unfoldable pub unmarshal_assign : MsgAssignTask → Bytes → Outcome Bytes MsgAssignTask
  unmarshal_assign = unmarshal w assign_field

  unfoldable pub marshal_complete : MsgCompleteTask → Bytes
  marshal_complete m = append_uint64 w (append_string w [] 1 m.assignee) 2 m.task_id

  unfoldable pub size_complete : MsgCompleteTask → ℕ
  size_complete m = size_string w 1 m.assignee + size_uint64 w 2 m.task_id

  unfoldable pub complete_field :
      MsgCompleteTask → ℕ → ℕ → Bytes → Outcome Bytes (MsgCompleteTask × Bytes)
  complete_field m num typ b =
      if num == 1
      then string_field w b (λ v. record m { assignee = v })
      else if num == 2
      then varint_field w b (λ v. record m { task_id = v })
      else other_field w m b typ

  unfoldable pub unmarshal_complete : MsgCompleteTask → Bytes → Outcome Bytes MsgCompleteTask
  unmarshal_complete = unmarshal w complete_field

  -- The loop over `m.Tasks`.
  unfoldable pub append_tasks : Bytes → List Task → Bytes
  append_tasks b [] = b
  append_tasks b (t ∷ ts) = append_tasks (append_message w b 1 (marshal_task t)) ts

  unfoldable pub size_tasks : List Task → ℕ
  size_tasks [] = 0
  size_tasks (t ∷ ts) = w.size_tag 1 + w.size_bytes (size_task t) + size_tasks ts

  unfoldable pub marshal_genesis : GenesisState → Bytes
  marshal_genesis m = append_uint64 w (append_tasks [] m.tasks) 2 m.next_task_id

  unfoldable pub size_genesis : GenesisState → ℕ
  size_genesis m = size_tasks m.tasks + size_uint64 w 2 m.next_task_id

  unfoldable pub genesis_field : GenesisState → ℕ → ℕ → Bytes → Outcome Bytes (GenesisState × Bytes)
  genesis_field m num typ b =
      if num == 1
      then message_field w b (λ bz. do
        task ← unmarshal_task zero_task bz
        ok (record m { tasks = m.tasks ++ (task ∷ []) }))
      else if num == 2
      then varint_field w b (λ v. record m { next_task_id = v })
      else other_field w m b typ

  unfoldable pub unmarshal_genesis : GenesisState → Bytes → Outcome Bytes GenesisState
  unmarshal_genesis = unmarshal w genesis_field

  -- QueryTaskResponse: a task alone, which Unmarshal reads into the one that is there.
  unfoldable pub marshal_response : Task → Bytes
  marshal_response task =
      let bz = marshal_task task in if ltb 0 (length bz) then append_message w [] 1 bz else []

  unfoldable pub size_response : Task → ℕ
  size_response task =
      if size_task task == 0 then 0 else w.size_tag 1 + w.size_bytes (size_task task)

  unfoldable pub response_field : Task → ℕ → ℕ → Bytes → Outcome Bytes (Task × Bytes)
  response_field m num typ b =
      if num == 1 then message_field w b (unmarshal_task m) else other_field w m b typ

  unfoldable pub unmarshal_response : Task → Bytes → Outcome Bytes Task
  unmarshal_response = unmarshal w response_field
