-- ===== src/Kvstore/MainExamples.antt =====
-- A process over the database in memory, and the theorem on how it ends at this process.
use poc_cometbft.Prelude.{◌≡◌, refl, Bool, true, false, some, ok}
use poc_cometbft.Bytes.{bytes}
use poc_cometbft.Kv.{lookup}
use poc_cometbft.Kvstore.State
use poc_cometbft.Kvstore.Memory.{memory, empty}
use poc_cometbft.Kvstore.App.{new_kv_store_app}
use poc_cometbft.Kvstore.Main.{Process, shut_down, fatal, main}
use poc_cometbft.Kvstore.Closed.{ProcessLaws, Ran, main-Left}

-- Its world is whether the database is open.
abbrev process : Process memory
process = record {
  World = Bool;
  open_db = λ path world. (ok empty, true);
  close_db = λ db world. false;
  start = λ addr app world. (ok tt, world);
  serve = λ app world. (some app, world);
  stop = λ world. world;
}

abbrev process_laws : ProcessLaws process
process_laws = record {
  is_open = λ world. world;
  open_db-is_open = λ path world db h. refl;
  close_db-is_open = λ db world. refl;
  start-is_open = λ addr app world. refl;
  serve-is_open = λ app world. refl;
}

main_runs :
    main memory process (bytes "tcp://0.0.0.0:36658") (bytes "/data/kvstore-db") false
    ≡ (shut_down, false)
unfolding main new_kv_store_app State.load_meta State.read_meta lookup
main_runs = refl

main-Left_example :
    ((main memory process (bytes "tcp://0.0.0.0:36658") (bytes "/data/kvstore-db") false).0
        ≡ shut_down
      → ((main memory process (bytes "tcp://0.0.0.0:36658") (bytes "/data/kvstore-db") false).1
          ≡ false)
        × Ran memory process process_laws
            (new_kv_store_app memory empty)
            (bytes "tcp://0.0.0.0:36658")
            true)
    × ((main memory process (bytes "tcp://0.0.0.0:36658") (bytes "/data/kvstore-db") false).0
          ≡ fatal
        → (main memory process (bytes "tcp://0.0.0.0:36658") (bytes "/data/kvstore-db") false).1
          ≡ true)
main-Left_example =
    main-Left memory process process_laws (bytes "tcp://0.0.0.0:36658") (bytes "/data/kvstore-db")
      false empty refl
