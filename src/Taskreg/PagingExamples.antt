-- ===== src/Taskreg/PagingExamples.antt =====
-- Runs of the queries on a store of two tasks.
use poc_cometbft.Prelude.{
  ℕ, ◌≡◌, refl, List, [], ◌∷◌, none, some, ok, panic, arith, All, if◌then◌else◌,
}
use poc_cometbft.Bytes.{bytes, bytes_eq}
use poc_cometbft.Bytes.Order.{compare_bytes}
use poc_cometbft.Bytes.BigEndian.{IsU64, put_uint64}
use poc_cometbft.Kv.{lookup, insert, from}
use poc_cometbft.Taskreg.Types.{Task, IsTask, key_task}
use poc_cometbft.Taskreg.Memory.{Store, store, store-laws, codec, codec-laws, empty}
use poc_cometbft.Taskreg.Keeper
use poc_cometbft.Taskreg.Genesis
use poc_cometbft.Taskreg.Listing.{find, Ascending, IsTaskStore, iterate_tasks_lem}
use poc_cometbft.Taskreg.RoundTrip.{set_tasks-IsTaskStore}
use poc_cometbft.Taskreg.Wire.Messages.{
  marshal_task, unmarshal_task, task_field, task_status, uint64_status,
}
use poc_cometbft.Taskreg.Wire.{slice_from}
use poc_cometbft.Taskreg.Query
use poc_cometbft.Taskreg.Query.{PageRequest}
use poc_cometbft.Taskreg.Paging.{page, fits, list_tasks_lem}

abbrev task : ℕ → Task
task id = record {
  id = id;
  title = bytes "paint";
  description = [];
  creator = bytes "alice";
  assignee = [];
  status = 1;
}

abbrev two_tasks : Store
two_tasks = Genesis.set_tasks store codec empty (task 1 ∷ task 258 ∷ [])

empty-IsTaskStore : IsTaskStore store store-laws codec codec-laws empty
unfolding lookup
empty-IsTaskStore k v e = cc

iterate_tasks_lem_example :
    (ts : List Task) × (Keeper.iterate_tasks store codec (Keeper.collect store codec) two_tasks []
      ≡ ok ts)
    × All IsTask ts
    × Ascending ts
    × ((id : ℕ) → IsU64 id → Keeper.get_task store codec two_tasks id ≡ ok (find id ts))
iterate_tasks_lem_example = iterate_tasks_lem store store-laws codec codec-laws two_tasks (
    set_tasks-IsTaskStore store store-laws codec codec-laws (task 1 ∷ task 258 ∷ []) empty
      (omega arith, (omega arith, tt)) empty-IsTaskStore)

-- The second page of one task.
abbrev second : PageRequest
second = record { offset = 1; limit = 1 }

two_visited :
    Keeper.iterate_tasks store codec (Keeper.collect store codec) two_tasks []
    ≡ ok (task 1 ∷ task 258 ∷ [])
unfolding Keeper.iterate_tasks Genesis.set_tasks Keeper.set_task from insert compare_bytes key_task
    put_uint64 Keeper.iterate_pairs marshal_task unmarshal_task bytes_eq slice_from task_field
    task_status uint64_status
two_visited = refl

list_tasks_lem_example :
    (Query.list_tasks store codec two_tasks (some (record { pagination = none }))
      ≡ ok (record { tasks = task 1 ∷ task 258 ∷ []; total = 2 }))
    × (Query.list_tasks store codec two_tasks (some (record { pagination = some second })) ≡ (
        if fits second 2
        then ok (record { tasks = page (task 1 ∷ task 258 ∷ []) second; total = 2 })
        else panic))
list_tasks_lem_example =
    list_tasks_lem store codec two_tasks (task 1 ∷ task 258 ∷ []) second two_visited (omega arith)
      (omega arith) (omega arith)
