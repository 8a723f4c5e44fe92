-- ===== src/Taskreg/Access.antt =====
-- The keeper's reads after its writes.
use poc_cometbft.Prelude.{
  ℕ, ◌≡◌, refl, sym, ap, ◌∙◌, false, some, Outcome, ok, inl, inr, if◌then◌else◌, ◌==◌, ==_iff,
  arith, Bool-cases, ◌++◌, [], ◌∷◌,
}
use poc_cometbft.Bytes.{Bytes, bytes_eq, bytes_eq_iff, bytes_eq_refl}
use poc_cometbft.Bytes.BigEndian.{IsU64, put_uint64, uint64, uint64-put_uint64}
use poc_cometbft.Kv.{lookup}
use poc_cometbft.Kv.Laws.{lookup-insert}
use poc_cometbft.Taskreg.Types.{Task, IsTask, Error, key_task, task_count_key, task_key_prefix}
use poc_cometbft.Taskreg.Store.{KvStoreService, StoreLaws, Codec, CodecLaws}
use poc_cometbft.Taskreg.Keeper

ok-injective : {a b : ℕ} → ◌≡◌ {A = Outcome Error ℕ} (ok a) (ok b) → a ≡ b
ok-injective h = cc

put_uint64-injective : (a b : ℕ) → IsU64 a → IsU64 b → put_uint64 a ≡ put_uint64 b → a ≡ b
put_uint64-injective a b ha hb h =
    ok-injective (sym (uint64-put_uint64 a ha) ∙ ap (uint64 {E = Error}) h ∙ uint64-put_uint64 b hb)

append_left : (p s t : Bytes) → p ++ s ≡ p ++ t → s ≡ t
append_left [] s t h = h
append_left (c ∷ p) s t h = append_left p s t (cc)

-- Different tasks have different keys.
pub key_task-injective : (a b : ℕ) → IsU64 a → IsU64 b → key_task a ≡ key_task b → a ≡ b
unfolding key_task
key_task-injective a b ha hb h =
    put_uint64-injective a b ha hb (append_left task_key_prefix (put_uint64 a) (put_uint64 b) h)

pub key_task_eq : (a b : ℕ) → IsU64 a → IsU64 b → bytes_eq (key_task a) (key_task b) ≡ (a == b)
key_task_eq a b ha hb = elim (Bool-cases (a == b)) [
  | inl same ↦ rw ((==_iff a b).0 same) (bytes_eq_refl (key_task b) ∙ sym ((==_iff b b).1 refl))
  | inr other ↦
      ground
        (arith, bytes_eq_iff (key_task a) (key_task b), key_task-injective a b ha hb, ==_iff a b)
]

pub key_task-ne-count : (id : ℕ) → bytes_eq (key_task id) task_count_key ≡ false
unfolding key_task bytes_eq
key_task-ne-count id = refl

pub count-ne-key_task : (id : ℕ) → bytes_eq task_count_key (key_task id) ≡ false
unfolding key_task bytes_eq
count-ne-key_task id = refl

module _ (s : KvStoreService) (sl : StoreLaws s) (cdc : Codec) (cl : CodecLaws cdc) where
  read_stored :
      (t : Task) → IsTask t → Keeper.read_task s cdc (ok (some (cdc.marshal t))) ≡ ok (some t)
  unfolding Keeper.read_task Keeper.must_unmarshal
  read_stored t h = ground (arith, cl.unmarshal-marshal t h)

  -- A task that was stored is read back, and the others are untouched.
  pub get_task-set_task :
      (st : s.Store) (t : Task) (id : ℕ)
      → IsTask t
      → IsU64 id
      → Keeper.get_task s cdc (Keeper.set_task s cdc st t) id
        ≡ (if t.id == id then ok (some t) else Keeper.get_task s cdc st id)
  unfolding Keeper.get_task Keeper.set_task
  get_task-set_task st t id h hid =
      ap (Keeper.read_task s cdc) (
        sl.get_lem _ (key_task id)
        ∙ ap (λ m. ok (lookup (key_task id) m)) (sl.set_lem st (key_task t.id) (cdc.marshal t))
        ∙ ap ok (lookup-insert (key_task t.id) (key_task id) (cdc.marshal t) (sl.pairs st)))
      ∙ elim (Bool-cases (t.id == id)) [
        | inl same ↦ rw (key_task_eq t.id id h.id_range hid, same) (read_stored t h)
        | inr other ↦
            rw (key_task_eq t.id id h.id_range hid, other)
              (ap (Keeper.read_task s cdc) (sym (sl.get_lem st (key_task id))))
      ]

  pub get_task-set_next_task_id :
      (st : s.Store) (n id : ℕ)
      → Keeper.get_task s cdc (Keeper.set_next_task_id s cdc st n) id ≡ Keeper.get_task s cdc st id
  unfolding Keeper.get_task Keeper.set_next_task_id
  get_task-set_next_task_id st n id = ap (Keeper.read_task s cdc) (
      sl.get_lem _ (key_task id)
      ∙ ap (λ m. ok (lookup (key_task id) m)) (sl.set_lem st task_count_key (put_uint64 n))
      ∙ ap ok (lookup-insert task_count_key (key_task id) (put_uint64 n) (sl.pairs st))
      ∙ rw (count-ne-key_task id) (sym (sl.get_lem st (key_task id))))

  pub next-set_task :
      (st : s.Store) (t : Task)
      → Keeper.get_next_task_id s cdc (Keeper.set_task s cdc st t)
        ≡ Keeper.get_next_task_id s cdc st
  unfolding Keeper.get_next_task_id Keeper.set_task
  next-set_task st t = ap (Keeper.read_next s cdc) (
      sl.get_lem _ task_count_key
      ∙ ap (λ m. ok (lookup task_count_key m)) (sl.set_lem st (key_task t.id) (cdc.marshal t))
      ∙ ap ok (lookup-insert (key_task t.id) task_count_key (cdc.marshal t) (sl.pairs st))
      ∙ rw (key_task-ne-count t.id) (sym (sl.get_lem st task_count_key)))

  pub next-set_next_task_id :
      (st : s.Store) (n : ℕ)
      → IsU64 n
      → Keeper.get_next_task_id s cdc (Keeper.set_next_task_id s cdc st n) ≡ ok n
  unfolding Keeper.get_next_task_id Keeper.set_next_task_id Keeper.read_next
  next-set_next_task_id st n h =
      ap (Keeper.read_next s cdc) (
        sl.get_lem _ task_count_key
        ∙ ap (λ m. ok (lookup task_count_key m)) (sl.set_lem st task_count_key (put_uint64 n))
        ∙ ap ok (lookup-insert task_count_key task_count_key (put_uint64 n) (sl.pairs st)))
      ∙ rw (bytes_eq_refl task_count_key) (uint64-put_uint64 n h)
