-- ===== src/Taskreg/Keeper.antt =====
-- mychain/x/taskreg/keeper/keeper.go. Log lines are left out.
use poc_cometbft.Prelude.{
  ℕ, List, [], ◌∷◌, ◌++◌, Bool, true, false, not, ◌&&◌, Option, none, some, Outcome, ok, err, panic,
  ◌>>=◌, if◌then◌else◌, ltb, ◌==◌, length,
}
use poc_cometbft.Bytes.{Bytes}
use poc_cometbft.Bytes.BigEndian.{put_uint64, uint64}
use poc_cometbft.Kv.{Kv}
use poc_cometbft.Taskreg.Types.{Task, Error, key_task, task_count_key, task_key_prefix}
use poc_cometbft.Taskreg.Store.{KvStoreService, Codec}

-- The loop that sets `match`.
unfoldable pub matches : Bytes → Bytes → Bool
matches [] key = true
matches (p ∷ prefix) [] = false
matches (p ∷ prefix) (c ∷ key) = c == p && matches prefix key

unfoldable pub has_prefix : Bytes → Bytes → Bool
unfolding matches
has_prefix prefix key = not (ltb (length key) (length prefix)) && matches prefix key

module _ (s : KvStoreService) (cdc : Codec) where
  unfoldable pub must_unmarshal : Bytes → Outcome Error Task
  must_unmarshal bz = elim (cdc.unmarshal bz) [ none ↦ panic | some task ↦ ok task ]

  unfoldable pub set_task : s.Store → Task → s.Store
  set_task st task = s.set st (key_task task.id) (cdc.marshal task)

  unfoldable pub read_task : Outcome s.Fault (Option Bytes) → Outcome Error (Option Task)
  read_task (ok none) = ok none
  read_task (ok (some bz)) = do task ← must_unmarshal bz; ok (some task)
  read_task (err e) = ok none
  read_task panic = panic

  unfoldable pub get_task : s.Store → ℕ → Outcome Error (Option Task)
  unfolding read_task must_unmarshal
  get_task st id = read_task (s.get st (key_task id))

  unfoldable pub read_next : Outcome s.Fault (Option Bytes) → Outcome Error ℕ
  read_next (ok none) = ok 1
  read_next (ok (some bz)) = uint64 bz
  read_next (err e) = ok 1
  read_next panic = panic

  unfoldable pub get_next_task_id : s.Store → Outcome Error ℕ
  unfolding read_next
  get_next_task_id st = read_next (s.get st task_count_key)

  unfoldable pub set_next_task_id : s.Store → ℕ → s.Store
  set_next_task_id st id = s.set st task_count_key (put_uint64 id)

  -- The callback's captured variables are `A`; it returns them and whether to stop.
  module _ {A : Type 0} (cb : A → Task → A × Bool) where
    unfoldable pub iterate_pairs : Kv → A → Outcome Error A
    unfolding must_unmarshal has_prefix
    iterate_pairs [] acc = ok acc
    iterate_pairs ((key, bz) ∷ rest) acc =
        let visit = (do
          task ← must_unmarshal bz
          let (acc', stop) = cb acc task in if stop then ok acc' else iterate_pairs rest acc') in
        if has_prefix task_key_prefix key then visit else ok acc

    unfoldable pub visit_all : Outcome s.Fault Kv → A → Outcome Error A
    visit_all (ok pairs) acc = iterate_pairs pairs acc
    visit_all (err e) acc = ok acc
    visit_all panic acc = panic

    unfoldable pub iterate_tasks : s.Store → A → Outcome Error A
    unfolding visit_all iterate_pairs
    iterate_tasks st acc = visit_all (s.iterator st task_key_prefix) acc

  -- `func(task) bool {tasks = append(tasks, task); return false }`
  abbrev pub collect : List Task → Task → List Task × Bool
  collect tasks task = (tasks ++ (task ∷ []), false)
