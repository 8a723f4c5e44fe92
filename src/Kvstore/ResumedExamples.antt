-- ===== src/Kvstore/ResumedExamples.antt =====
-- A process whose directory holds the database in memory, and the restart of it behind a commit.
use poc_cometbft.Prelude.{◌≡◌, refl, sym, ap, ok-injective, [], ◌∷◌, some, ok, arith}
use poc_cometbft.Bytes.{Bytes, bytes}
use poc_cometbft.Kvstore.Memory.{memory, memory-laws, empty, Store}
use poc_cometbft.Kvstore.State
use poc_cometbft.Kvstore.App
use poc_cometbft.Kvstore.App.{KvStoreApp}
use poc_cometbft.Kvstore.Main.{Process, started, main}
use poc_cometbft.Kvstore.Resumed.{Durable, after, resumed, main-after}

-- Its world is the content of the directory.
abbrev process : Process memory
process = record {
  World = Store;
  open_db = λ path world. (ok world, world);
  close_db = λ db world. db;
  start = λ addr app world. (ok tt, world);
  serve = λ app world. (some app, world);
  stop = λ world. world;
}

abbrev durable : Durable memory-laws process (bytes "/data/kvstore-db")
durable = record { reopened = λ state db world h. ap (λ s. s.pairs) (sym (ok-injective h)) }

-- In place of SHA-256.
abbrev digest : Bytes → Bytes
digest data_bytes = data_bytes

abbrev staged : KvStoreApp memory
staged = record {
  state = empty;
  height = 7;
  app_hash = [];
  staged = (bytes "a", bytes "1") ∷ (bytes "b", bytes "2=3") ∷ [];
}

abbrev left : Store
left = after memory memory-laws process (bytes "/data/kvstore-db") durable digest staged empty

abbrev again : KvStoreApp memory
again = resumed memory memory-laws process (bytes "/data/kvstore-db") durable digest staged left

main-after_example :
    (main memory process (bytes "tcp://0.0.0.0:36658") (bytes "/data/kvstore-db") left
      ≡ started memory process (ok tt) again left)
    × (left.pairs ≡ (App.commit memory digest staged).state.pairs)
unfolding App.write_staged State.save_meta State.write_meta State.batch_set State.set_all
main-after_example =
    main-after memory memory-laws process (bytes "/data/kvstore-db") durable digest
      (bytes "tcp://0.0.0.0:36658") staged empty left (omega arith) refl refl
