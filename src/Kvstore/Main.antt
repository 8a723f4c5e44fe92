-- ===== src/Kvstore/Main.antt =====
-- abci-kvstore/main.go, with the opening and the closing of the database in abci-kvstore/state.go. Log
-- lines are left out; `log.Fatalf` ends the process at once, and no deferred call runs.
use poc_cometbft.Prelude.{Option, none, some, Outcome, ok, err, panic}
use poc_cometbft.Bytes.{Bytes, bytes}
use poc_cometbft.Bytes.Wrap.{wrap}
use poc_cometbft.Kvstore.Badger.{Badger}
use poc_cometbft.Kvstore.App.{KvStoreApp, new_kv_store_app}

-- What the process calls outside the store: `open_db` is `badger.Open` and `close_db` is `DB.Close`, whose
-- error is only logged; `start` and `stop` are those of the socket server. `serve` is what happens up
-- to a signal: the application as the requests leave it, or none where a panic in a
-- goroutine of the server ends the process.
pub record Process (b : Badger) : Type 1 where
  pub World : Type 0
  pub open_db : Bytes → World → Outcome Bytes b.Db × World
  pub close_db : b.Db → World → World
  pub start : Bytes → KvStoreApp b → World → Outcome Bytes (Unit {0}) × World
  pub serve : KvStoreApp b → World → Option (KvStoreApp b) × World
  pub stop : World → World

pub data Ending : Type 0 where
  shut_down fatal panicked : Ending

module _ (b : Badger) (p : Process b) where
  unfoldable pub new_state : Bytes → p.World → Outcome Bytes b.Db × p.World
  new_state path world =
      let opened = p.open_db path world in (wrap (bytes "open badger: ") opened.0, opened.1)

  -- Behind the wait for a signal.
  unfoldable pub signalled : Option (KvStoreApp b) → p.World → Ending × p.World
  signalled (some app) world = (shut_down, p.close_db app.state (p.stop world))
  signalled none world = (panicked, world)

  -- Behind `server.Start`.
  unfoldable pub started : Outcome Bytes (Unit {0}) → KvStoreApp b → p.World → Ending × p.World
  unfolding signalled
  started (ok tt) app world = let served = p.serve app world in signalled served.0 served.1
  started (err e) app world = (fatal, world)
  started panic app world = (panicked, p.close_db app.state world)

  -- Behind `NewKVStoreApp`.
  unfoldable pub restored :
      Outcome b.Error (KvStoreApp b) → Bytes → b.Db → p.World → Ending × p.World
  unfolding started
  restored (ok app) addr state world =
      let called = p.start addr app world in started called.0 app called.1
  restored (err e) addr state world = (fatal, world)
  restored panic addr state world = (panicked, p.close_db state world)

  -- Behind `NewState`.
  unfoldable pub opened : Outcome Bytes b.Db → Bytes → p.World → Ending × p.World
  unfolding restored
  opened (ok state) addr world = restored (new_kv_store_app b state) addr state world
  opened (err e) addr world = (fatal, world)
  opened panic addr world = (panicked, world)

  unfoldable pub main : (addr db_path : Bytes) → p.World → Ending × p.World
  unfolding new_state opened
  main addr db_path world = let created = new_state db_path world in opened created.0 addr created.1
