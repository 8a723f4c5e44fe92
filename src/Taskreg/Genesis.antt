-- ===== src/Taskreg/Genesis.antt =====
-- mychain/x/taskreg/types/genesis.go and keeper/genesis.go.
use poc_cometbft.Prelude.{
  ℕ, List, [], ◌∷◌, ◌++◌, Bool, false, ◌||◌, Outcome, ok, err, ◌>>=◌, if◌then◌else◌, ◌==◌,
}
use poc_cometbft.Bytes.{bytes}
use poc_cometbft.Bytes.Text.{decimal}
use poc_cometbft.Taskreg.Types.{Task, GenesisState, Error, invalid_status}
use poc_cometbft.Taskreg.Store.{KvStoreService, Codec}
use poc_cometbft.Taskreg.Keeper

unfoldable pub default_genesis : GenesisState
default_genesis = record { tasks = []; next_task_id = 1 }

abbrev pub duplicate : ℕ → Error
duplicate id = record { kind = invalid_status; message = bytes "duplicate task id: " ++ decimal id }

-- The keys of `taskIDs`, all of which map to true.
unfoldable pub has_id : ℕ → List ℕ → Bool
has_id id [] = false
has_id id (j ∷ ids) = j == id || has_id id ids

unfoldable pub validate_tasks : List ℕ → List Task → Outcome Error (Unit {0})
unfolding has_id
validate_tasks task_ids [] = ok tt
validate_tasks task_ids (task ∷ tasks) =
    let rest = validate_tasks (task.id ∷ task_ids) tasks in
    if has_id task.id task_ids then err (duplicate task.id) else rest

unfoldable pub validate : GenesisState → Outcome Error (Unit {0})
unfolding validate_tasks
validate gs = validate_tasks [] gs.tasks

module _ (s : KvStoreService) (cdc : Codec) where
  unfoldable pub set_tasks : s.Store → List Task → s.Store
  set_tasks st [] = st
  set_tasks st (task ∷ tasks) = set_tasks (Keeper.set_task s cdc st task) tasks

  unfoldable pub init_genesis : s.Store → GenesisState → s.Store
  unfolding set_tasks
  init_genesis st gs = Keeper.set_next_task_id s cdc (set_tasks st gs.tasks) gs.next_task_id

  unfoldable pub export_genesis : s.Store → Outcome Error GenesisState
  export_genesis st = do
    tasks ← Keeper.iterate_tasks s cdc (Keeper.collect s cdc) st []
    next_task_id ← Keeper.get_next_task_id s cdc st
    ok (record { tasks = tasks; next_task_id = next_task_id })
