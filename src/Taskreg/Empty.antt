-- ===== src/Taskreg/Empty.antt =====
-- The registry without tasks, and a store in memory that holds it.
use poc_cometbft.Prelude.{refl, [], none, arith}
use poc_cometbft.Kv.{lookup}
use poc_cometbft.Taskreg.Memory.{store, store-laws, codec, codec-laws, empty}
use poc_cometbft.Taskreg.Keeper
use poc_cometbft.Taskreg.MsgServer.{Context}
use poc_cometbft.Taskreg.Registry.{Registry, IsRegistry}
use poc_cometbft.Taskreg.Refines.{Abstracts}
use poc_cometbft.Taskreg.Listing.{IsTaskStore}
use poc_cometbft.Taskreg.RoundTrip.{HasNoTask}

abbrev pub no_tasks : Registry
no_tasks = record { tasks = λ id. none; next = 1 }

pub no_tasks-IsRegistry : IsRegistry no_tasks
no_tasks-IsRegistry = record {
  next_range = omega arith;
  own_id = λ id t e. cc;
  in_range = λ id t e. cc;
  fresh = λ id h. refl;
}

abbrev pub start : Context store
start = record { store = empty; events = [] }

pub start-Abstracts : Abstracts store codec empty no_tasks
unfolding Keeper.get_task Keeper.get_next_task_id lookup
start-Abstracts = record { tasks_at = λ id h. refl; next_at = refl }

pub empty-IsTaskStore : IsTaskStore store store-laws codec codec-laws empty
unfolding lookup
empty-IsTaskStore k v e = cc

pub empty-HasNoTask : HasNoTask store store-laws codec codec-laws empty
empty-HasNoTask id h = start-Abstracts.tasks_at id h
