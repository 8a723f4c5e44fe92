-- ===== src/Kvstore/Resumed.antt =====
-- A process of abci-kvstore that starts on the database that another one closed.
use poc_cometbft.Prelude.{◌≡◌, refl, ap, ◌∙◌, some, ok}
use poc_cometbft.Bytes.{Bytes}
use poc_cometbft.Bytes.BigEndian.{IsU64}
use poc_cometbft.Kv.{lookup}
use poc_cometbft.Kvstore.Badger.{Badger, Laws}
use poc_cometbft.Kvstore.State.{meta_height, meta_app_hash}
use poc_cometbft.Kvstore.App
use poc_cometbft.Kvstore.App.{KvStoreApp}
use poc_cometbft.Kvstore.Commit.{Saved, load_meta_lem, at-save_meta_height, at-save_meta_app_hash}
use poc_cometbft.Kvstore.Main.{Process, signalled, started, restored, opened, new_state, main}

-- The processes have one database, in the directory `db_path`. It is opened with the pairs with which
-- it was closed, if it is opened.
pub record Durable {b : Badger} (l : Laws b) (p : Process b) (db_path : Bytes) : Type 0 where
  pub reopened :
      (state db : b.Db) (world : p.World)
      → (p.open_db db_path (p.close_db state world)).0 ≡ ok db
      → l.pairs (b.begin db) ≡ l.pairs (b.begin state)

module _ (b : Badger) (l : Laws b) (p : Process b) (db_path : Bytes) (durable : Durable l p db_path)
    (sum256 : Bytes → Bytes) where
  -- The world that a process leaves where a signal comes behind the commit of `app`.
  abbrev pub after : KvStoreApp b → p.World → p.World
  after app world = (signalled b p (some (App.commit b sum256 app)) world).1

  -- The application of the commit over another handle.
  abbrev pub resumed : KvStoreApp b → b.Db → KvStoreApp b
  resumed app db = record (App.commit b sum256 app) { state = db }

  new_kv_store_app-reopened :
      (app : KvStoreApp b) (db : b.Db)
      → IsU64 app.height
      → Saved b sum256 app
      → l.pairs (b.begin db) ≡ l.pairs (b.begin (App.commit b sum256 app).state)
      → App.new_kv_store_app b db ≡ ok (resumed app db)
  unfolding App.commit App.new_kv_store_app
  new_kv_store_app-reopened app db u h same =
      rw
        (load_meta_lem b l db _ _ u (ap (lookup meta_height) same ∙ at-save_meta_height b l _ _ _ h)
          (ap (lookup meta_app_hash) same ∙ at-save_meta_app_hash b l _ _ _ h))
        refl

  -- Where a signal shut a process down behind a commit that saved its meta keys, with a height of 64
  -- bits, and the database opens again: the next process starts the server with the height and the
  -- hash of that commit, with nothing staged, over the pairs that the commit left.
  pub main-after :
      (addr : Bytes) (app : KvStoreApp b) (world : p.World) (db : b.Db)
      → IsU64 app.height
      → Saved b sum256 app
      → (p.open_db db_path (after app world)).0 ≡ ok db
      → (main b p addr db_path (after app world) ≡ (
          let called = p.start addr (resumed app db) (p.open_db db_path (after app world)).1 in
          started b p called.0 (resumed app db) called.1))
        × (l.pairs (b.begin db) ≡ l.pairs (b.begin (App.commit b sum256 app).state))
  unfolding main new_state opened restored signalled
  main-after addr app world db u h opens =
      let same = durable.reopened (App.commit b sum256 app).state db (p.stop world) opens in
      (rw (opens, new_kv_store_app-reopened app db u h same) refl, same)
