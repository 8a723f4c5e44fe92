-- ===== src/Kvstore/Closed.antt =====
-- Whether the database is open where abci-kvstore/main.go ends.
use poc_cometbft.Prelude.{
  ◌≡◌, refl, ◌∙◌, Bool, true, false, Option, none, some, Outcome, ok, err, panic,
}
use poc_cometbft.Bytes.{Bytes}
use poc_cometbft.Kvstore.Badger.{Badger}
use poc_cometbft.Kvstore.App.{KvStoreApp, new_kv_store_app}
use poc_cometbft.Kvstore.Main.{
  Process, Ending, shut_down, fatal, new_state, signalled, started, restored, opened, main,
}

-- Opening opens and closing closes the database; the server does neither.
pub record ProcessLaws {b : Badger} (p : Process b) : Type 0 where
  pub is_open : p.World → Bool
  pub open_db-is_open :
      (path : Bytes) (world : p.World) (db : b.Db)
      → (p.open_db path world).0 ≡ ok db
      → is_open (p.open_db path world).1 ≡ true
  pub close_db-is_open : (db : b.Db) (world : p.World) → is_open (p.close_db db world) ≡ false
  pub start-is_open :
      (addr : Bytes) (app : KvStoreApp b) (world : p.World)
      → is_open (p.start addr app world).1 ≡ is_open world
  pub serve-is_open :
      (app : KvStoreApp b) (world : p.World) → is_open (p.serve app world).1 ≡ is_open world

module _ (b : Badger) (p : Process b) (laws : ProcessLaws p) where
  -- Closed after a shutdown, open where the process was ended.
  abbrev Left : Ending × p.World → Type 0
  Left ended =
      (ended.0 ≡ shut_down → laws.is_open ended.1 ≡ false)
      × (ended.0 ≡ fatal → laws.is_open ended.1 ≡ true)

  Left-signalled :
      (o : Option (KvStoreApp b)) (world : p.World)
      → laws.is_open world ≡ true
      → Left (signalled b p o world)
  unfolding signalled
  Left-signalled (some app) world h = (λ _. laws.close_db-is_open app.state (p.stop world), λ e. cc)
  Left-signalled none world h = (λ e. cc, λ e. cc)

  Left-started :
      (o : Outcome Bytes (Unit {0})) (app : KvStoreApp b) (world : p.World)
      → laws.is_open world ≡ true
      → Left (started b p o app world)
  unfolding started
  Left-started (ok tt) app world h = Left-signalled _ _ (laws.serve-is_open app world ∙ h)
  Left-started (err e) app world h = (λ e. cc, λ _. h)
  Left-started panic app world h = (λ e. cc, λ e. cc)

  Left-restored :
      (o : Outcome b.Error (KvStoreApp b)) (addr : Bytes) (state : b.Db) (world : p.World)
      → laws.is_open world ≡ true
      → Left (restored b p o addr state world)
  unfolding restored
  Left-restored (ok app) addr state world h =
      Left-started _ app _ (laws.start-is_open addr app world ∙ h)
  Left-restored (err e) addr state world h = (λ e. cc, λ _. h)
  Left-restored panic addr state world h = (λ e. cc, λ e. cc)

  -- An application that was restored and started, where the process was shut down.
  abbrev pub Ran : Outcome b.Error (KvStoreApp b) → Bytes → p.World → Type 0
  Ran made addr world =
      (app : KvStoreApp b) × (made ≡ ok app) × ((p.start addr app world).0 ≡ ok tt)

  started-ok :
      (o : Outcome Bytes (Unit {0})) (app : KvStoreApp b) (world : p.World)
      → (started b p o app world).0 ≡ shut_down
      → o ≡ ok tt
  unfolding started
  started-ok (ok tt) app world h = refl
  started-ok (err e) app world h = cc
  started-ok panic app world h = cc

  restored-Ran :
      (o : Outcome b.Error (KvStoreApp b)) (addr : Bytes) (state : b.Db) (world : p.World)
      → (restored b p o addr state world).0 ≡ shut_down
      → Ran o addr world
  unfolding restored
  restored-Ran (ok app) addr state world h = (app, refl, started-ok _ app _ h)
  restored-Ran (err e) addr state world h = cc
  restored-Ran panic addr state world h = cc

  -- Where the database opens: a process that a signal shuts down has closed it, and had started a server
  -- for the application that the database's meta keys restore; a process that `log.Fatalf` ends, in
  -- the meta's reading or in the server's start, leaves it open.
  pub main-Left :
      (addr db_path : Bytes) (world : p.World) (db : b.Db)
      → (p.open_db db_path world).0 ≡ ok db
      → ((main b p addr db_path world).0 ≡ shut_down
          → (laws.is_open (main b p addr db_path world).1 ≡ false)
            × Ran (new_kv_store_app b db) addr (p.open_db db_path world).1)
        × ((main b p addr db_path world).0 ≡ fatal
            → laws.is_open (main b p addr db_path world).1 ≡ true)
  unfolding main new_state opened
  main-Left addr db_path world db h =
      let left_open = laws.open_db-is_open db_path world db h in
      rw h (
        (λ e. (
          (Left-restored (new_kv_store_app b db) addr db _ left_open).0 e,
          restored-Ran (new_kv_store_app b db) addr db _ e,
        )),
        (Left-restored (new_kv_store_app b db) addr db _ left_open).1,
      )
