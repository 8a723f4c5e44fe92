-- ===== src/Taskreg/Query.antt =====
-- mychain/x/taskreg/keeper/grpc_query.go. Log lines are left out. Go's `int` is held as its 64-bit
-- pattern: one from 2 ^ 63 on stands for a negative number.
use poc_cometbft.Prelude.{
  ℕ, ◌+◌, ◌-◌, ◌%◌, ◌^◌, List, [], Bool, Option, none, some, Outcome, ok, err, panic, ◌>>=◌,
  if◌then◌else◌, ltb, leb, length, take, drop,
}
use poc_cometbft.Bytes.{bytes}
use poc_cometbft.Taskreg.Types.{Task, Error, invalid_argument}
use poc_cometbft.Taskreg.Store.{KvStoreService, Codec}
use poc_cometbft.Taskreg.Keeper
use poc_cometbft.Taskreg.MsgServer.{not_found}

abbrev pub empty_request : Error
empty_request = record { kind = invalid_argument; message = bytes "empty request" }

-- `query.PageRequest`, as far as the code reads it.
pub record PageRequest : Type 0 where
  pub offset : ℕ
  pub limit : ℕ

pub record QueryListTasksRequest : Type 0 where
  pub pagination : Option PageRequest

pub record QueryListTasksResponse : Type 0 where
  pub tasks : List Task
  pub total : ℕ

abbrev pub is_negative : ℕ → Bool
is_negative n = leb (2 ^ 63) n

-- `a > b` on ints.
abbrev pub int_gt : ℕ → ℕ → Bool
int_gt a b = ltb ((b + 2 ^ 63) % 2 ^ 64) ((a + 2 ^ 63) % 2 ^ 64)

unfoldable pub page_start : ℕ → ℕ → ℕ
page_start offset len = if ltb 0 offset then (if int_gt offset len then len else offset) else 0

unfoldable pub page_end : ℕ → ℕ → ℕ → ℕ
page_end start limit len =
    let end' = (start + limit) % 2 ^ 64 in
    if ltb 0 limit then (if int_gt end' len then len else end') else len

-- `tasks[start:end]`, which panics unless 0 ≤ start ≤ end ≤ cap; what is above the length never comes.
unfoldable pub slice {ℓ} : {A : Type ℓ} {E : Type 0} → List A → ℕ → ℕ → Outcome E (List A)
slice tasks start end' =
    if is_negative start
    then panic
    else if is_negative end'
    then panic
    else if ltb end' start
    then panic
    else if ltb (length tasks) end'
    then panic
    else ok (take (end' - start) (drop start tasks))

unfoldable pub page_bounds : Option PageRequest → ℕ → ℕ × ℕ
page_bounds none len = (0, len)
page_bounds (some p) len =
    let start = page_start p.offset len in (start, page_end start p.limit len)

module _ (s : KvStoreService) (cdc : Codec) where
  unfoldable pub task_response : ℕ → Option Task → Outcome Error Task
  task_response id none = err (not_found id)
  task_response id (some task) = ok task

  -- `QueryTaskRequest`, nil or with its id.
  unfoldable pub query_task : s.Store → Option ℕ → Outcome Error Task
  unfolding task_response
  query_task st none = err empty_request
  query_task st (some id) = do found ← Keeper.get_task s cdc st id; task_response id found

  unfoldable pub list_tasks :
      s.Store → Option QueryListTasksRequest → Outcome Error QueryListTasksResponse
  list_tasks st none = err empty_request
  list_tasks st (some req) = do
    all_tasks ← Keeper.iterate_tasks s cdc (Keeper.collect s cdc) st []
    let (start, end') = page_bounds req.pagination (length all_tasks) in
        do
          paginated ← slice all_tasks start end'
          ok (record { tasks = paginated; total = length all_tasks })
