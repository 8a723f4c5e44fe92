-- ===== src/Taskreg/Wire/Total.antt =====
-- `Unmarshal` on any bytes: it neither slices out of range nor runs out of the fuel it is given.
use poc_cometbft.Prelude.{
  ℕ, zero, suc, ◌+◌, ◌<◌, ◌≤◌, ◌≡◌, ◌≢◌, refl, [], ◌∷◌, Bool, Outcome, ok, err, panic, ◌>>=◌,
  if◌then◌else◌, ◌==◌, length, drop, arith, inl, inr, Option-cases,
}
use poc_cometbft.Bytes.{Bytes}
use poc_cometbft.Taskreg.Types.{Task, GenesisState, MsgCreateTask, MsgAssignTask, MsgCompleteTask}
use poc_cometbft.Taskreg.Protowire.{Protowire, WireLaws}
use poc_cometbft.Taskreg.Wire.{
  slice_from, skip_field, varint_field, string_field, message_field, other_field, unmarshal_loop,
  unmarshal,
}
use poc_cometbft.Taskreg.Wire.Messages.{
  zero_task, task_field, unmarshal_task, create_field, unmarshal_create, assign_field,
  unmarshal_assign, complete_field, unmarshal_complete, id_field, unmarshal_id, genesis_field,
  unmarshal_genesis, response_field, unmarshal_response,
}

length-drop : (n : ℕ) (b : Bytes) → length (drop n b) + n ≤ length b + n
length-drop zero b = omega arith
length-drop (suc n) [] = omega arith
length-drop (suc n) (c ∷ b) = omega (arith, length-drop n b)

length-drop_pos : (n : ℕ) (b : Bytes) → 0 < n → 0 < length b → length (drop n b) < length b
length-drop_pos zero b h pos = absurd (omega (arith, h))
length-drop_pos (suc n) [] h pos = absurd (omega (arith, pos))
length-drop_pos (suc n) (c ∷ b) h pos = omega (arith, length-drop n b)

slice_within : (n : ℕ) (b : Bytes) → n ≤ length b → slice_from n b ≡ ok (drop n b)
unfolding slice_from
slice_within n b h = ground (arith, h)

module _ {A : Type 0} where
  -- What was read left no more than `n` bytes.
  Reads : ℕ → Outcome Bytes (A × Bytes) → Type 0
  Reads n (ok (m, b)) = length b ≤ n
  Reads n (err e) = Unit
  Reads n panic = ⊥

  abbrev Returns : Outcome Bytes A → Type 0
  Returns (ok m) = Unit
  Returns (err e) = Unit
  Returns panic = ⊥

  Returns-ne-panic : (o : Outcome Bytes A) → Returns o → o ≢ panic
  Returns-ne-panic (ok m) h e = cc
  Returns-ne-panic (err e) h e' = cc
  Returns-ne-panic panic h e = h

  ne-panic-Returns : (o : Outcome Bytes A) → o ≢ panic → Returns o
  ne-panic-Returns (ok m) h = tt
  ne-panic-Returns (err e) h = tt
  ne-panic-Returns panic h = h refl

  Reads-rest :
      (n : ℕ) (b : Bytes) (m : A)
      → n ≤ length b
      → Reads (length b) (slice_from n b >>= (λ rest. ok (m, rest)))
  unfolding Reads
  Reads-rest n b m h = rw (slice_within n b h) (omega (arith, length-drop n b))

  module _ (w : Protowire) (l : WireLaws w) where
    varint_field-Reads : (b : Bytes) (m : ℕ → A) → Reads (length b) (varint_field w b m)
    unfolding Reads varint_field
    varint_field-Reads b m = elim (Option-cases (w.consume_varint b)) [
      | inl none_read ↦ rw (none_read, varint_field) tt
      | inr ((v, n), e) ↦ rw (e, varint_field) (Reads-rest n b (m v) (l.varint_within b v n e))
    ]

    string_field-Reads : (b : Bytes) (m : Bytes → A) → Reads (length b) (string_field w b m)
    unfolding Reads string_field
    string_field-Reads b m = elim (Option-cases (w.consume_bytes b)) [
      | inl none_read ↦ rw (none_read, string_field) tt
      | inr ((v, n), e) ↦ rw (e, string_field) (Reads-rest n b (m v) (l.bytes_within b v n e))
    ]

    message_field-Reads :
        (b : Bytes) (read : Bytes → Outcome Bytes A)
        → ((bz : Bytes) → read bz ≢ panic)
        → Reads (length b) (message_field w b read)
    unfolding Reads message_field
    message_field-Reads b read h = elim (Option-cases (w.consume_bytes b)) [
      | inl none_read ↦ rw (none_read, message_field) tt
      | inr ((v, n), e) ↦ rw (e, message_field) (after (read v) n (h v) (l.bytes_within b v n e))
    ]
      where
        after :
            (o : Outcome Bytes A) (n : ℕ)
            → o ≢ panic
            → n ≤ length b
            → Reads (length b) (o >>= λ m. slice_from n b >>= λ rest. ok (m, rest))
        after (ok m) n h within = Reads-rest n b m within
        after (err e) n h within = tt
        after panic n h within = h refl

    other_field-Reads : (m : A) (b : Bytes) (typ : ℕ) → Reads (length b) (other_field w m b typ)
    unfolding Reads other_field skip_field
    other_field-Reads m b typ = elim (Option-cases (w.consume_field_value 0 typ b)) [
      | inl none_read ↦ rw (none_read, skip_field) tt
      | inr (n, e) ↦ rw (e, skip_field) (Reads-rest n b m (l.value_within b 0 typ n e))
    ]

    after_field :
        (field : A → ℕ → ℕ → Bytes → Outcome Bytes (A × Bytes)) (fuel : ℕ)
        (r : Outcome Bytes (A × Bytes)) (n : ℕ)
        → n ≤ fuel
        → Reads n r
        → ((m : A) (b : Bytes) → length b ≤ fuel → Returns (unmarshal_loop w field fuel m b))
        → Returns (r >>= λ read. unmarshal_loop w field fuel read.0 read.1)
    unfolding Reads
    after_field field fuel (ok (m', b')) n h r again = again m' b' (omega (arith, h, r))
    after_field field fuel (err e) n h r again = tt
    after_field field fuel panic n h r again = r

    module _ (field : A → ℕ → ℕ → Bytes → Outcome Bytes (A × Bytes))
        (reads : (m : A) (num typ : ℕ) (b : Bytes) → Reads (length b) (field m num typ b)) where
      loop-Returns :
          (fuel : ℕ) (m : A) (b : Bytes)
          → length b ≤ fuel
          → Returns (unmarshal_loop w field fuel m b)
      unfolding unmarshal_loop
      loop-Returns fuel m [] h = tt
      loop-Returns zero m (c ∷ b) h = absurd (omega (arith, h))
      loop-Returns (suc fuel) m (c ∷ b) h = elim (Option-cases (w.consume_tag (c ∷ b))) [
        | inl none_read ↦ rw (none_read, unmarshal_loop) tt
        | inr ((num, typ, n), e) ↦
            let (pos, within) = l.tag_within (c ∷ b) num typ n e in
            rw (e, slice_within n (c ∷ b) within, unmarshal_loop)
              (after_field field fuel (field m num typ (drop n (c ∷ b))) (length (drop n (c ∷ b)))
                (omega (arith, length-drop_pos n (c ∷ b) pos (omega arith), h))
                (reads m num typ (drop n (c ∷ b))) (λ m' b'. loop-Returns fuel m' b'))
      ]

      unmarshal-ne-panic : (m : A) (b : Bytes) → unmarshal w field m b ≢ panic
      unfolding unmarshal
      unmarshal-ne-panic m b =
          Returns-ne-panic (unmarshal w field m b) (loop-Returns (length b) m b (omega arith))

module _ (w : Protowire) (l : WireLaws w) where
  -- The `switch num` of the messages: a chain of tests.
  if-Reads :
      {A : Type 0} (n : ℕ) (c : Bool) (x y : Outcome Bytes (A × Bytes))
      → Reads n x
      → Reads n y
      → Reads n (if c then x else y)
  if-Reads n Bool.true x y h h' = h
  if-Reads n Bool.false x y h h' = h'

  unmarshal_task-ne-panic : (m : Task) (b : Bytes) → unmarshal_task w m b ≢ panic
  unfolding unmarshal_task task_field
  unmarshal_task-ne-panic = unmarshal-ne-panic w l (task_field w) (λ m num typ b.
      search (if-Reads, varint_field-Reads w l, string_field-Reads w l, other_field-Reads w l) depth
        10)

  unmarshal_create-ne-panic : (m : MsgCreateTask) (b : Bytes) → unmarshal_create w m b ≢ panic
  unfolding unmarshal_create create_field
  unmarshal_create-ne-panic = unmarshal-ne-panic w l (create_field w) (λ m num typ b.
      search (if-Reads, varint_field-Reads w l, string_field-Reads w l, other_field-Reads w l) depth
        10)

  unmarshal_id-ne-panic : (m : ℕ) (b : Bytes) → unmarshal_id w m b ≢ panic
  unfolding unmarshal_id id_field
  unmarshal_id-ne-panic = unmarshal-ne-panic w l (id_field w) (λ m num typ b.
      search (if-Reads, varint_field-Reads w l, string_field-Reads w l, other_field-Reads w l) depth
        10)

  unmarshal_assign-ne-panic : (m : MsgAssignTask) (b : Bytes) → unmarshal_assign w m b ≢ panic
  unfolding unmarshal_assign assign_field
  unmarshal_assign-ne-panic = unmarshal-ne-panic w l (assign_field w) (λ m num typ b.
      search (if-Reads, varint_field-Reads w l, string_field-Reads w l, other_field-Reads w l) depth
        10)

  unmarshal_complete-ne-panic : (m : MsgCompleteTask) (b : Bytes) → unmarshal_complete w m b ≢ panic
  unfolding unmarshal_complete complete_field
  unmarshal_complete-ne-panic = unmarshal-ne-panic w l (complete_field w) (λ m num typ b.
      search (if-Reads, varint_field-Reads w l, string_field-Reads w l, other_field-Reads w l) depth
        10)

  then_ok-ne-panic :
      {A : Type 0} {B : Type 0} (o : Outcome Bytes A) (f : A → B)
      → o ≢ panic
      → ◌≢◌ {A = Outcome Bytes B} (o >>= λ a. ok (f a)) panic
  then_ok-ne-panic (ok a) f h e = cc
  then_ok-ne-panic (err e) f h e' = cc
  then_ok-ne-panic panic f h e = h refl

  unmarshal_genesis-ne-panic : (m : GenesisState) (b : Bytes) → unmarshal_genesis w m b ≢ panic
  unfolding unmarshal_genesis genesis_field
  unmarshal_genesis-ne-panic = unmarshal-ne-panic w l (genesis_field w) (λ m num typ b.
      if-Reads _ (num == 1) _ _
        (message_field-Reads w l b _ (λ bz.
          then_ok-ne-panic (unmarshal_task w zero_task bz) _
            (unmarshal_task-ne-panic zero_task bz)))
        (if-Reads _ (num == 2) _ _ (varint_field-Reads w l b _) (other_field-Reads w l m b typ)))

  unmarshal_response-ne-panic : (m : Task) (b : Bytes) → unmarshal_response w m b ≢ panic
  unfolding unmarshal_response response_field
  unmarshal_response-ne-panic = unmarshal-ne-panic w l (response_field w) (λ m num typ b.
      if-Reads _ (num == 1) _ _ (message_field-Reads w l b _ (unmarshal_task-ne-panic m))
        (other_field-Reads w l m b typ))

  -- On any bytes, and into any message, `Unmarshal` of a Task, a GenesisState, a MsgCreateTask, a
  -- MsgAssignTask, a MsgCompleteTask, an id alone and a QueryTaskResponse does not panic, nor does its
  -- loop run out of fuel.
  pub unmarshals-ne-panic :
      (b : Bytes)
      → ((m : Task) → unmarshal_task w m b ≢ panic)
        × ((m : GenesisState) → unmarshal_genesis w m b ≢ panic)
        × ((m : MsgCreateTask) → unmarshal_create w m b ≢ panic)
        × ((m : MsgAssignTask) → unmarshal_assign w m b ≢ panic)
        × ((m : MsgCompleteTask) → unmarshal_complete w m b ≢ panic)
        × ((id : ℕ) → unmarshal_id w id b ≢ panic)
        × ((m : Task) → unmarshal_response w m b ≢ panic)
  unmarshals-ne-panic b = (
    λ m. unmarshal_task-ne-panic m b,
    λ m. unmarshal_genesis-ne-panic m b,
    λ m. unmarshal_create-ne-panic m b,
    λ m. unmarshal_assign-ne-panic m b,
    λ m. unmarshal_complete-ne-panic m b,
    λ id. unmarshal_id-ne-panic id b,
    λ m. unmarshal_response-ne-panic m b,
  )
