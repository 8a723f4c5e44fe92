-- ===== src/Taskreg/Wire/Sizes.antt =====
-- The `Size` methods of the types' *.pb.go are exact.
use poc_cometbft.Prelude.{
  ℕ, ◌+◌, ◌≡◌, ap, ◌∙◌, List, [], ◌∷◌, ◌==◌, length, length-append, arith, inl, inr, Bool-cases,
}
use poc_cometbft.Bytes.{Bytes, bytes_eq}
use poc_cometbft.Taskreg.Types.{Task, GenesisState, MsgCreateTask, MsgAssignTask, MsgCompleteTask}
use poc_cometbft.Taskreg.Protowire.{Protowire, WireLaws}
use poc_cometbft.Taskreg.Wire.{
  append_string, append_uint64, append_message, size_string, size_uint64,
}
use poc_cometbft.Taskreg.Wire.Messages.{
  uint64_status, marshal_task, size_task, marshal_create, size_create, marshal_assign, size_assign,
  marshal_complete, size_complete, append_tasks, size_tasks, marshal_genesis, size_genesis,
  marshal_response, size_response, marshal_id, size_id,
}

module _ (w : Protowire) (l : WireLaws w) where
  length-tag :
      (b : Bytes) (num typ : ℕ) → length (w.append_tag b num typ) ≡ length b + w.size_tag num
  length-tag b num typ =
      ap length (l.append_tag_lem b num typ)
      ∙ length-append b (w.append_tag [] num typ)
      ∙ ap (λ n. length b + n) (l.size_tag_lem num typ)

  length-varint_field :
      (b : Bytes) (num v : ℕ)
      → length (w.append_varint (w.append_tag b num w.varint_type) v)
        ≡ length b + (w.size_tag num + w.size_varint v)
  length-varint_field b num v =
      ap length (l.append_varint_lem (w.append_tag b num w.varint_type) v)
      ∙ length-append (w.append_tag b num w.varint_type) (w.append_varint [] v)
      ∙ omega (arith, length-tag b num w.varint_type, l.size_varint_lem v)

  length-append_message :
      (b : Bytes) (num : ℕ) (bz : Bytes)
      → length (append_message w b num bz) ≡ length b + (w.size_tag num + w.size_bytes (length bz))
  unfolding append_message
  length-append_message b num bz =
      ap length (l.append_bytes_lem (w.append_tag b num w.bytes_type) bz)
      ∙ length-append (w.append_tag b num w.bytes_type) (w.append_bytes [] bz)
      ∙ omega (arith, length-tag b num w.bytes_type, l.size_bytes_lem bz)

  length-append_string :
      (b : Bytes) (num : ℕ) (v : Bytes)
      → length (append_string w b num v) ≡ length b + size_string w num v
  unfolding append_string append_message size_string
  length-append_string b num v = elim (Bool-cases (bytes_eq v [])) [
    | inl empty ↦ rw empty (omega arith)
    | inr other ↦ rw other (length-append_message b num v)
  ]

  length-append_uint64 :
      (b : Bytes) (num v : ℕ) → length (append_uint64 w b num v) ≡ length b + size_uint64 w num v
  unfolding append_uint64 size_uint64
  length-append_uint64 b num v = elim (Bool-cases (v == 0)) [
    | inl zero_value ↦ rw zero_value (omega arith)
    | inr other ↦ rw other (length-varint_field b num v)
  ]

  -- `Size` of a Task is the length of what its `Marshal` writes.
  pub size_task_lem : (t : Task) → length (marshal_task w t) ≡ size_task w t
  unfolding marshal_task size_task
  size_task_lem t = elim (Bool-cases (t.status == 0)) [
    | inl empty ↦ rw empty texts_size
    | inr other ↦
        rw other (length-varint_field _ 6 (uint64_status t.status) ∙ omega (arith, texts_size))
  ]
    where
      texts_size :
          length (
            append_string w
              (append_string w
                (append_string w
                  (append_string w (append_uint64 w [] 1 t.id) 2 t.title)
                  3
                  t.description)
                4
                t.creator)
              5
              t.assignee)
          ≡ size_uint64 w 1 t.id
            + size_string w 2 t.title
            + size_string w 3 t.description
            + size_string w 4 t.creator
            + size_string w 5 t.assignee
            + 0
      texts_size = omega (
        arith,
        length-append_string _ 5 t.assignee,
        length-append_string _ 4 t.creator,
        length-append_string _ 3 t.description,
        length-append_string _ 2 t.title,
        length-append_uint64 [] 1 t.id,
      )

  length-append_tasks :
      (b : Bytes) (ts : List Task) → length (append_tasks w b ts) ≡ length b + size_tasks w ts
  unfolding append_tasks size_tasks
  length-append_tasks b [] = omega arith
  length-append_tasks b (t ∷ ts) =
      length-append_tasks (append_message w b 1 (marshal_task w t)) ts
      ∙ omega
          (arith, length-append_message b 1 (marshal_task w t), ap w.size_bytes (size_task_lem t))

  -- `Size` of a GenesisState is the length of what its `Marshal` writes.
  pub size_genesis_lem : (gs : GenesisState) → length (marshal_genesis w gs) ≡ size_genesis w gs
  unfolding marshal_genesis size_genesis
  size_genesis_lem gs =
      length-append_uint64 _ 2 gs.next_task_id ∙ omega (arith, length-append_tasks [] gs.tasks)

  size_create_lem : (m : MsgCreateTask) → length (marshal_create w m) ≡ size_create w m
  unfolding marshal_create size_create
  size_create_lem m = omega (
    arith,
    length-append_string _ 3 m.description,
    length-append_string _ 2 m.title,
    length-append_string [] 1 m.creator,
  )

  size_assign_lem : (m : MsgAssignTask) → length (marshal_assign w m) ≡ size_assign w m
  unfolding marshal_assign size_assign
  size_assign_lem m = omega (
    arith,
    length-append_string _ 3 m.assignee,
    length-append_uint64 _ 2 m.task_id,
    length-append_string [] 1 m.creator,
  )

  size_complete_lem : (m : MsgCompleteTask) → length (marshal_complete w m) ≡ size_complete w m
  unfolding marshal_complete size_complete
  size_complete_lem m =
      omega (arith, length-append_uint64 _ 2 m.task_id, length-append_string [] 1 m.assignee)

  size_id_lem : (id : ℕ) → length (marshal_id w id) ≡ size_id w id
  unfolding marshal_id size_id
  size_id_lem id = omega (arith, length-append_uint64 [] 1 id)

  size_response_lem : (t : Task) → length (marshal_response w t) ≡ size_response w t
  unfolding marshal_response size_response
  size_response_lem t =
      ground (arith, size_task_lem t, length-append_message [] 1 (marshal_task w t))

  -- `Size` of a Task, a GenesisState, a MsgCreateTask, a MsgAssignTask, a MsgCompleteTask, of a message
  -- that is an id alone and of a QueryTaskResponse is the length of what its `Marshal` writes.
  pub sizes_lem :
      ((t : Task) → length (marshal_task w t) ≡ size_task w t)
      × ((gs : GenesisState) → length (marshal_genesis w gs) ≡ size_genesis w gs)
      × ((m : MsgCreateTask) → length (marshal_create w m) ≡ size_create w m)
      × ((m : MsgAssignTask) → length (marshal_assign w m) ≡ size_assign w m)
      × ((m : MsgCompleteTask) → length (marshal_complete w m) ≡ size_complete w m)
      × ((id : ℕ) → length (marshal_id w id) ≡ size_id w id)
      × ((t : Task) → length (marshal_response w t) ≡ size_response w t)
  sizes_lem = (
    size_task_lem, size_genesis_lem, size_create_lem, size_assign_lem, size_complete_lem,
    size_id_lem, size_response_lem,
  )
