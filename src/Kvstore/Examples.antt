-- ===== src/Kvstore/Examples.antt =====
-- Runs of the store on a small block, and the theorems at these inputs.
use poc_cometbft.Prelude.{[], ◌∷◌, ◌≡◌, ◌↔◌, refl, true, ok, map, sym}
use poc_cometbft.Bytes.{Bytes, bytes, bytes_eq}
use poc_cometbft.Bytes.Order.{compare_bytes}
use poc_cometbft.Bytes.Split.{split_2}
use poc_cometbft.Kv.{lookup, insert}
use poc_cometbft.Kvstore.Memory.{memory, memory-laws, empty, Store}
use poc_cometbft.Kvstore.State
use poc_cometbft.Kvstore.App
use poc_cometbft.Kvstore.App.{KvStoreApp, RequestFinalizeBlock, is_valid_tx, parse_tx, exec_result}
use poc_cometbft.Kvstore.Tx.{Renders, valid_iff-Renders, staged_by_all}
use poc_cometbft.Kvstore.Data.{at, last_write, at-save_meta}
use poc_cometbft.Kvstore.Hash.{user_pairs, hash_boundary}
use poc_cometbft.Kvstore.Commit.{Written, commit_drops}
use poc_cometbft.Kvstore.Block.{
  execute, execute_all, finalize_block_lem, replicas_agree, query-execute, answer,
}

-- In place of SHA-256.
abbrev digest : Bytes → Bytes
digest data_bytes = data_bytes

abbrev start : KvStoreApp memory
start = record { state = empty; height = 0; app_hash = []; staged = [] }

abbrev block : RequestFinalizeBlock
block = record { txs = bytes "a=1" ∷ bytes "b=2=3" ∷ bytes "junk" ∷ bytes "a=4" ∷ []; height = 7 }

abbrev staged : KvStoreApp memory
staged = record {
  state = empty;
  height = 7;
  app_hash = [];
  staged = (bytes "a", bytes "1") ∷ (bytes "b", bytes "2=3") ∷ (bytes "a", bytes "4") ∷ [];
}

block_stages : (App.finalize_block memory start block).0 ≡ staged
unfolding App.finalize_block split_2
block_stages = refl

commit_runs : (App.commit memory digest staged).app_hash ≡ bytes "a4b2=3"
unfolding App.commit State.batch_set State.set_all State.hash State.hashed State.value_or_nothing
    State.is_meta bytes_eq compare_bytes insert
commit_runs = refl

block-Written : Written memory (App.finalize_block memory start block).0
unfolding App.finalize_block App.write_staged State.batch_set State.set_all split_2
block-Written = refl

valid_iff-Renders_example :
    ((is_valid_tx (bytes "b=2=3") ≡ true) × (parse_tx (bytes "b=2=3") ≡ (bytes "b", bytes "2=3")))
    ↔ Renders (bytes "b=2=3") (bytes "b") (bytes "2=3")
valid_iff-Renders_example = valid_iff-Renders (bytes "b=2=3") (bytes "b") (bytes "2=3")

finalize_block_lem_example : App.finalize_block memory start block ≡ (
  record start { height = 7; staged = staged_by_all block.txs },
  record { tx_results = map exec_result block.txs; app_hash = [] },
)
finalize_block_lem_example = finalize_block_lem memory start block

query-execute_example :
    App.query memory (execute memory digest start block) (bytes "a")
    ≡ ok (
        answer (bytes "a") (
          last_write
            (bytes "a")
            (staged_by_all block.txs)
            (at memory memory-laws start.state (bytes "a"))))
unfolding State.is_meta bytes_eq
query-execute_example =
    query-execute memory memory-laws digest start block (bytes "a") (λ p. cc) refl block-Written

-- The key is one that the database refuses.
abbrev refused : KvStoreApp memory
refused = record staged { staged = (bytes "a", bytes "1") ∷ (bytes "!k", bytes "2") ∷ [] }

commit_drops_example :
    (at memory memory-laws (App.commit memory digest refused).state (bytes "a")
      ≡ at memory memory-laws empty (bytes "a"))
    × ((App.info memory (App.commit memory digest refused)).last_block_height ≡ 7)
    × ((App.commit memory digest refused).staged ≡ [])
unfolding State.is_meta bytes_eq App.write_staged State.batch_set State.set_all lookup
commit_drops_example = commit_drops memory memory-laws digest refused (bytes "a") refl (λ p. cc p)

-- The same data under other meta keys.
abbrev restarted : KvStoreApp memory
restarted = record start { state = (State.save_meta memory empty 3 (bytes "h")).1 }

replicas_agree_example :
    (execute_all memory digest start (block ∷ [])).app_hash
    ≡ (execute_all memory digest restarted (block ∷ [])).app_hash
unfolding App.finalize_block App.write_staged State.batch_set State.set_all split_2 State.save_meta
    State.write_meta
replicas_agree_example =
    replicas_agree memory memory-laws digest start restarted [] block
      (λ k user. sym (at-save_meta memory memory-laws empty 3 (bytes "h") k user)) (refl, tt)
      (refl, tt)

abbrev holding : Bytes → Bytes → Store
holding k v = (State.set memory empty k v).1

hash_boundary_example :
    State.hash memory digest (holding (bytes "ab") (bytes "c"))
    ≡ State.hash memory digest (holding (bytes "a") (bytes "bc"))
unfolding State.set insert user_pairs State.is_meta bytes_eq
hash_boundary_example =
    hash_boundary memory memory-laws digest (holding (bytes "ab") (bytes "c"))
      (holding (bytes "a") (bytes "bc")) (bytes "a") (bytes "b") (bytes "c") refl refl
