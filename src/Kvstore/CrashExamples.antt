-- ===== src/Kvstore/CrashExamples.antt =====
-- Two runs of a node over the first blocks, one of them torn, and a block that forges the height.
use poc_cometbft.Prelude.{
  ℕ, [], ◌∷◌, ◌≡◌, refl, sym, ap, ◌∙◌, ◌≢◌, false, true, some, ok, inl, inr, Bool-cases, arith,
}
use poc_cometbft.Bytes.{Bytes, bytes, bytes_eq, bytes_eq_iff}
use poc_cometbft.Bytes.Order.{compare_bytes}
use poc_cometbft.Bytes.Split.{split_2}
use poc_cometbft.Kv.{lookup, insert}
use poc_cometbft.Kvstore.Memory.{memory, memory-laws, empty}
use poc_cometbft.Kvstore.State
use poc_cometbft.Kvstore.State.{is_meta, meta_height, meta_app_hash}
use poc_cometbft.Kvstore.App
use poc_cometbft.Kvstore.App.{KvStoreApp, RequestFinalizeBlock, new_kv_store_app}
use poc_cometbft.Kvstore.Data.{last_write, at}
use poc_cometbft.Kvstore.Tx.{staged_by_all}
use poc_cometbft.Kvstore.Commit.{Written}
use poc_cometbft.Kvstore.Block.{execute}
use poc_cometbft.Kvstore.Crash.{Runs, booted, torn, finalized, torn_db, Holds, crashes_agree}
use poc_cometbft.Kvstore.Reports.{reports_kept, forged_height, forging, NoMeta}

abbrev digest : Bytes → Bytes
digest data_bytes = data_bytes

abbrev start : KvStoreApp memory
start = record { state = empty; height = 0; app_hash = []; staged = [] }

abbrev chain : ℕ → RequestFinalizeBlock
chain i = record { txs = bytes "a=1" ∷ bytes "a=2" ∷ []; height = 1 }

block-Written : Written memory (finalized memory start (chain 0))
unfolding App.finalize_block App.write_staged State.batch_set State.set_all split_2
block-Written = refl

-- The node behind a restart in the commit of the first block.
abbrev again : KvStoreApp memory
again = record start { state = torn_db memory start (chain 0) }

again_made : new_kv_store_app memory (torn_db memory start (chain 0)) ≡ ok again
unfolding new_kv_store_app State.load_meta State.read_meta lookup App.finalize_block
    App.write_staged State.batch_set State.set_all split_2 insert compare_bytes bytes_eq
again_made = refl

abbrev run_torn : Runs memory digest start chain 0 again
run_torn = torn booted again_made

again-Written : Written memory (finalized memory again (chain 0))
unfolding App.finalize_block App.write_staged State.batch_set State.set_all split_2
again-Written = refl

crashes_agree_example :
    Holds memory memory-laws digest start chain 1 (execute memory digest start (chain 0)).state
    × ((execute memory digest start (chain 0)).app_hash
        ≡ (execute memory digest again (chain 0)).app_hash)
crashes_agree_example =
    crashes_agree memory memory-laws digest start chain booted run_torn block-Written again-Written

a_not_meta : is_meta (bytes "a") ≡ false
unfolding is_meta bytes_eq
a_not_meta = refl

chain-NoMeta : (i : ℕ) → NoMeta (staged_by_all (chain i).txs)
unfolding staged_by_all split_2 last_write App.is_valid_tx App.parse_tx bytes_eq
chain-NoMeta i k meta old = elim (Bool-cases (bytes_eq (bytes "a") k)) [
  | inl hit ↦
      absurd
        (false_or_true (sym a_not_meta ∙ ap is_meta ((bytes_eq_iff (bytes "a") k).0 hit) ∙ meta))
  | inr miss ↦ rw miss refl
]
  where
    false_or_true : false ≢ true
    false_or_true e = cc

reports_kept_example :
    ((App.info memory again).last_block_height ≡ 0)
    × (new_kv_store_app memory again.state ≡ ok (record again { staged = [] }))
    × (new_kv_store_app memory (torn_db memory again (chain 0))
        ≡ ok (record again { state = torn_db memory again (chain 0); staged = [] }))
unfolding lookup
reports_kept_example =
    reports_kept memory memory-laws digest start chain (λ i. omega arith) chain-NoMeta
      (inl (refl, refl, refl)) run_torn

abbrev block_1 : KvStoreApp memory
block_1 = execute memory digest start (chain 0)

abbrev forged : RequestFinalizeBlock
forged = record { txs = forging 9 ∷ []; height = 2 }

forged-Written : Written memory (finalized memory block_1 forged)
unfolding App.finalize_block App.write_staged State.batch_set State.set_all split_2 forging
forged-Written = refl

block_1_hash : at memory memory-laws block_1.state meta_app_hash ≡ some block_1.app_hash
unfolding execute App.finalize_block App.commit State.save_meta State.write_meta insert
    compare_bytes lookup bytes_eq split_2 State.batch_set State.set_all
block_1_hash = refl

forged_height_example :
    new_kv_store_app memory (torn_db memory block_1 forged)
    ≡ ok (record {
      state = torn_db memory block_1 forged;
      height = 9;
      app_hash = block_1.app_hash;
      staged = [];
    })
forged_height_example =
    forged_height memory memory-laws block_1 9 2 (omega arith) block_1_hash forged-Written
