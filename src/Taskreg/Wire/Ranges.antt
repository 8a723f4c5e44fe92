-- ===== src/Taskreg/Wire/Ranges.antt =====
-- What `Unmarshal` reads lies in the ranges of the fields' Go types, whatever the bytes are.
use poc_cometbft.Prelude.{ℕ, List, [], ◌∷◌, ◌++◌, Outcome, ok, err, panic, ◌>>=◌, ◌==◌, All, arith}
use poc_cometbft.Bytes.{Bytes}
use poc_cometbft.Bytes.BigEndian.{IsU64}
use poc_cometbft.Taskreg.Types.{
  Task, IsTask, IsText, GenesisState, MsgCreateTask, MsgAssignTask, MsgCompleteTask,
}
use poc_cometbft.Taskreg.Registry.{IsCreate, IsAssign, IsComplete}
use poc_cometbft.Taskreg.Protowire.{Protowire}
use poc_cometbft.Taskreg.Wire.Leaves.{
  WireRanges, Results, if-Leaves, varint_field-Leaves, string_field-Leaves, other_field-Leaves,
  message_field-Leaves, unmarshal-Results,
}
use poc_cometbft.Taskreg.Wire.Messages.{
  zero_task, zero_create, zero_assign, zero_complete, zero_genesis, task_status, task_field,
  unmarshal_task, create_field, unmarshal_create, assign_field, unmarshal_assign, complete_field,
  unmarshal_complete, id_field, unmarshal_id, genesis_field, unmarshal_genesis,
}

-- The ranges of a genesis's fields.
abbrev pub IsGenesis : GenesisState → Type 0
IsGenesis gs = All IsTask gs.tasks × IsU64 gs.next_task_id

All-concat :
    {A : Type 0} (P : A → Type 0) (xs : List A) (x : A) → All P xs → P x → All P (xs ++ (x ∷ []))
All-concat P [] x h p = (p, tt)
All-concat P (y ∷ xs) x h p = (h.0, All-concat P xs x h.1 p)

module _ (w : Protowire) (r : WireRanges w) where
  unmarshal_task-IsTask :
      (m : Task) (b : Bytes) → IsTask m → IsText b → Results IsTask (unmarshal_task w m b)
  unfolding unmarshal_task task_field task_status
  unmarshal_task-IsTask = unmarshal-Results IsTask w r (task_field w) (λ m num typ b h text.
      if-Leaves IsTask (num == 1) _ _
        (varint_field-Leaves IsTask w r b _ text (λ v hv. omega arith))
        (if-Leaves IsTask (num == 2) _ _
          (string_field-Leaves IsTask w r b _ text (λ v hv. omega arith))
          (if-Leaves IsTask (num == 3) _ _
            (string_field-Leaves IsTask w r b _ text (λ v hv. omega arith))
            (if-Leaves IsTask (num == 4) _ _
              (string_field-Leaves IsTask w r b _ text (λ v hv. omega arith))
              (if-Leaves IsTask (num == 5) _ _
                (string_field-Leaves IsTask w r b _ text (λ v hv. omega arith))
                (if-Leaves IsTask (num == 6) _ _
                  (varint_field-Leaves IsTask w r b _ text (λ v hv. omega arith))
                  (other_field-Leaves IsTask w r m b typ text h)))))))

  unmarshal_create-IsCreate :
      (m : MsgCreateTask) (b : Bytes)
      → IsCreate m
      → IsText b
      → Results IsCreate (unmarshal_create w m b)
  unfolding unmarshal_create create_field
  unmarshal_create-IsCreate = unmarshal-Results IsCreate w r (create_field w) (λ m num typ b h text.
      if-Leaves IsCreate (num == 1) _ _
        (string_field-Leaves IsCreate w r b _ text (λ v hv. omega arith))
        (if-Leaves IsCreate (num == 2) _ _
          (string_field-Leaves IsCreate w r b _ text (λ v hv. omega arith))
          (if-Leaves IsCreate (num == 3) _ _
            (string_field-Leaves IsCreate w r b _ text (λ v hv. omega arith))
            (other_field-Leaves IsCreate w r m b typ text h))))

  unmarshal_assign-IsAssign :
      (m : MsgAssignTask) (b : Bytes)
      → IsAssign m
      → IsText b
      → Results IsAssign (unmarshal_assign w m b)
  unfolding unmarshal_assign assign_field
  unmarshal_assign-IsAssign = unmarshal-Results IsAssign w r (assign_field w) (λ m num typ b h text.
      if-Leaves IsAssign (num == 1) _ _
        (string_field-Leaves IsAssign w r b _ text (λ v hv. omega arith))
        (if-Leaves IsAssign (num == 2) _ _
          (varint_field-Leaves IsAssign w r b _ text (λ v hv. omega arith))
          (if-Leaves IsAssign (num == 3) _ _
            (string_field-Leaves IsAssign w r b _ text (λ v hv. omega arith))
            (other_field-Leaves IsAssign w r m b typ text h))))

  unmarshal_complete-IsComplete :
      (m : MsgCompleteTask) (b : Bytes)
      → IsComplete m
      → IsText b
      → Results IsComplete (unmarshal_complete w m b)
  unfolding unmarshal_complete complete_field
  unmarshal_complete-IsComplete =
      unmarshal-Results IsComplete w r (complete_field w) (λ m num typ b h text.
        if-Leaves IsComplete (num == 1) _ _
          (string_field-Leaves IsComplete w r b _ text (λ v hv. omega arith))
          (if-Leaves IsComplete (num == 2) _ _
            (varint_field-Leaves IsComplete w r b _ text (λ v hv. omega arith))
            (other_field-Leaves IsComplete w r m b typ text h)))

  unmarshal_id-IsU64 : (m : ℕ) (b : Bytes) → IsU64 m → IsText b → Results IsU64 (unmarshal_id w m b)
  unfolding unmarshal_id id_field
  unmarshal_id-IsU64 = unmarshal-Results IsU64 w r (id_field w) (λ m num typ b h text.
      if-Leaves IsU64 (num == 1) _ _ (varint_field-Leaves IsU64 w r b _ text (λ v hv. omega arith))
        (other_field-Leaves IsU64 w r m b typ text h))

  IsGenesis-task :
      (m : GenesisState) (o : Outcome Bytes Task)
      → IsGenesis m
      → Results IsTask o
      → Results IsGenesis (o >>= λ task. ok (record m { tasks = m.tasks ++ (task ∷ []) }))
  IsGenesis-task m (ok task) h t = (All-concat IsTask m.tasks task h.0 t, h.1)
  IsGenesis-task m (err e) h t = tt
  IsGenesis-task m panic h t = tt

  unmarshal_genesis-IsGenesis :
      (m : GenesisState) (b : Bytes)
      → IsGenesis m
      → IsText b
      → Results IsGenesis (unmarshal_genesis w m b)
  unfolding unmarshal_genesis genesis_field
  unmarshal_genesis-IsGenesis =
      unmarshal-Results IsGenesis w r (genesis_field w) (λ m num typ b h text.
        if-Leaves IsGenesis (num == 1) _ _
          (message_field-Leaves IsGenesis w r b _ text (λ bz hbz.
            IsGenesis-task m (unmarshal_task w zero_task bz) h
              (unmarshal_task-IsTask zero_task bz (omega arith) hbz)))
          (if-Leaves IsGenesis (num == 2) _ _
            (varint_field-Leaves IsGenesis w r b _ text (λ v hv. (h.0, hv)))
            (other_field-Leaves IsGenesis w r m b typ text h)))

  -- Whatever the bytes are, of a length that Go can give them: the fields of a Task, a GenesisState, a
  -- MsgCreateTask, a MsgAssignTask, a MsgCompleteTask and an id alone that `Unmarshal` reads from them
  -- into a new message lie in the ranges of their Go types.
  pub unmarshals-Results :
      (b : Bytes)
      → IsText b
      → Results IsTask (unmarshal_task w zero_task b)
        × Results IsGenesis (unmarshal_genesis w zero_genesis b)
        × Results IsCreate (unmarshal_create w zero_create b)
        × Results IsAssign (unmarshal_assign w zero_assign b)
        × Results IsComplete (unmarshal_complete w zero_complete b)
        × Results IsU64 (unmarshal_id w 0 b)
  unmarshals-Results b text = (
    unmarshal_task-IsTask zero_task b (omega arith) text,
    unmarshal_genesis-IsGenesis zero_genesis b (omega arith) text,
    unmarshal_create-IsCreate zero_create b (omega arith) text,
    unmarshal_assign-IsAssign zero_assign b (omega arith) text,
    unmarshal_complete-IsComplete zero_complete b (omega arith) text,
    unmarshal_id-IsU64 0 b (omega arith) text,
  )
