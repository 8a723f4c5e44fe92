-- ===== src/Kvstore/Crash.antt =====
-- A node of abci-kvstore whose process may end at any moment and is started again: between two blocks,
-- behind `FinalizeBlock`, or in `Commit` between the write of the pairs and that of the meta keys.
use mathlib.Core.Path.{subst}
use poc_cometbft.Prelude.{
  ℕ, zero, suc, List, [], ◌∷◌, ◌≡◌, refl, ap, sym, ◌∙◌, ◌⊎◌, inl, inr, false, Option, some,
  Bool-cases, ok, ok-injective, >>=-eq-ok, returned_or_not, if◌then◌else◌,
}
use poc_cometbft.Bytes.{Bytes, bytes_eq}
use poc_cometbft.Kvstore.Badger.{Badger, Laws}
use poc_cometbft.Kvstore.State
use poc_cometbft.Kvstore.State.{is_meta}
use poc_cometbft.Kvstore.Data.{last_write, at}
use poc_cometbft.Kvstore.Hash.{hash_ext}
use poc_cometbft.Kvstore.App
use poc_cometbft.Kvstore.App.{KvStoreApp, RequestFinalizeBlock, new_kv_store_app}
use poc_cometbft.Kvstore.Tx.{staged_by_all}
use poc_cometbft.Kvstore.Commit.{
  Written, Saved, at-write_staged, at-write_staged_failed, hash-commit,
}
use poc_cometbft.Kvstore.Block.{execute, at-execute, finalize_block_lem}

-- A list of writes has no value for a key, or a last one.
last_write_cases :
    (k : Bytes) (writes : List (Bytes × Bytes))
    → ((old : Option Bytes) → last_write k writes old ≡ old)
      ⊎ ((v : Bytes) × ((old : Option Bytes) → last_write k writes old ≡ some v))
unfolding last_write
last_write_cases k [] = inl (λ old. refl)
last_write_cases k ((j, v) ∷ writes) = elim (last_write_cases k writes) [
  | inr (w, h) ↦ inr (w, λ old. h (if bytes_eq j k then some v else old))
  | inl h ↦ elim (Bool-cases (bytes_eq j k)) [
    | inl hit ↦ inr (v, λ old. rw hit (h (some v)))
    | inr miss ↦ inl (λ old. rw miss (h old))
  ]
]

-- Writing the same pairs again changes nothing.
pub last_write_idem :
    (k : Bytes) (writes : List (Bytes × Bytes)) (old : Option Bytes)
    → last_write k writes (last_write k writes old) ≡ last_write k writes old
last_write_idem k writes old = elim (last_write_cases k writes) [
  | inl h ↦ h (last_write k writes old)
  | inr (v, h) ↦ h (last_write k writes old) ∙ sym (h old)
]

module _ (b : Badger) where
  -- The app behind `FinalizeBlock` of a block.
  abbrev pub finalized : KvStoreApp b → RequestFinalizeBlock → KvStoreApp b
  finalized app req = (App.finalize_block b app req).0

  -- The database where the process ends between the two writes of `Commit`.
  abbrev pub torn_db : KvStoreApp b → RequestFinalizeBlock → b.Db
  torn_db app req = (App.write_staged b (finalized app req)).1

  module _ (sum256 : Bytes → Bytes) (start : KvStoreApp b) (chain : ℕ → RequestFinalizeBlock) where
    -- `Runs n app`: from `start`, the app has committed the first `n` blocks of the chain. CometBFT
    -- replays the block that a process did not report as committed.
    pub data Runs : ℕ → KvStoreApp b → Type 0 where
      booted : Runs 0 start
      committed :
          {n : ℕ} {app : KvStoreApp b}
          → Runs n app
          → Written b (finalized app (chain n))
          → Saved b sum256 (finalized app (chain n))
          → Runs (suc n) (execute b sum256 app (chain n))
      restarted :
          {n : ℕ} {app app' : KvStoreApp b}
          → Runs n app
          → new_kv_store_app b app.state ≡ ok app'
          → Runs n app'
      torn :
          {n : ℕ} {app app' : KvStoreApp b}
          → Runs n app
          → new_kv_store_app b (torn_db app (chain n)) ≡ ok app'
          → Runs n app'

  pub state-new_kv_store_app :
      (db : b.Db) (app : KvStoreApp b) → new_kv_store_app b db ≡ ok app → app.state ≡ db
  unfolding new_kv_store_app
  state-new_kv_store_app db app h =
      let (meta, loaded, made) = >>=-eq-ok (State.load_meta b db) _ h in
      sym (ap (λ a. a.state) (ok-injective made))

module _ (b : Badger) (l : Laws b) where
  pub at-torn_failed :
      (app : KvStoreApp b) (req : RequestFinalizeBlock) (k : Bytes)
      → ¬ Written b (finalized b app req)
      → at b l (torn_db b app req) k ≡ at b l app.state k
  at-torn_failed app req k h =
      at-write_staged_failed b l (finalized b app req) k h
      ∙ ap (λ r. at b l (KvStoreApp.state (r.0)) k) (finalize_block_lem b app req)

  pub at-torn :
      (app : KvStoreApp b) (req : RequestFinalizeBlock) (k : Bytes)
      → Written b (finalized b app req)
      → at b l (torn_db b app req) k ≡ last_write k (staged_by_all req.txs) (at b l app.state k)
  at-torn app req k h =
      at-write_staged b l (finalized b app req) k h
      ∙ ap (λ r. last_write k (KvStoreApp.staged (r.0)) (at b l (KvStoreApp.state (r.0)) k))
          (finalize_block_lem b app req)

module _ (b : Badger) (l : Laws b) (sum256 : Bytes → Bytes) (start : KvStoreApp b)
    (chain : ℕ → RequestFinalizeBlock) where
  -- The clients' data behind the first `n` blocks, had no process ended.
  unfoldable pub data_after : ℕ → Bytes → Option Bytes
  data_after zero k = at b l start.state k
  data_after (suc n) k = last_write k (staged_by_all (chain n).txs) (data_after n k)

  -- The database holds the data of `n` blocks.
  abbrev pub Holds : ℕ → b.Db → Type 0
  Holds n db = (k : Bytes) → is_meta k ≡ false → at b l db k ≡ data_after n k

  hash-execute :
      (app : KvStoreApp b) (req : RequestFinalizeBlock)
      → State.hash b sum256 (execute b sum256 app req).state ≡ (execute b sum256 app req).app_hash
  unfolding execute
  hash-execute app req = hash-commit b l sum256 (finalized b app req)

  -- The database holds the data of `n` blocks, or those of the next one too.
  abbrev Behind : ℕ → b.Db → Type 0
  Behind n db = Holds n db ⊎ Holds (suc n) db

  -- A block leaves its data whether or not they are there already.
  after_block :
      (n : ℕ) (db : b.Db)
      → Behind n db
      → (k : Bytes) → is_meta k ≡ false
      → last_write k (staged_by_all (chain n).txs) (at b l db k) ≡ data_after (suc n) k
  unfolding data_after
  after_block n db (inl h) k user = ap (last_write k (staged_by_all (chain n).txs)) (h k user)
  after_block n db (inr h) k user =
      ap (last_write k (staged_by_all (chain n).txs)) (h k user)
      ∙ last_write_idem k (staged_by_all (chain n).txs) (data_after n k)

  execute-Holds :
      (n : ℕ) (app : KvStoreApp b)
      → Behind n app.state
      → Written b (finalized b app (chain n))
      → Holds (suc n) (execute b sum256 app (chain n)).state
  execute-Holds n app behind written k user =
      at-execute b l sum256 app (chain n) k user written ∙ after_block n app.state behind k user

  torn-Holds :
      (n : ℕ) (app : KvStoreApp b)
      → Behind n app.state
      → Written b (finalized b app (chain n))
      → Holds (suc n) (torn_db b app (chain n))
  torn-Holds n app behind written k user =
      at-torn b l app (chain n) k written ∙ after_block n app.state behind k user

  Behind-same :
      (n : ℕ) (db db' : b.Db)
      → ((k : Bytes) → at b l db' k ≡ at b l db k)
      → Behind n db
      → Behind n db'
  Behind-same n db db' same (inl h) = inl (λ k user. same k ∙ h k user)
  Behind-same n db db' same (inr h) = inr (λ k user. same k ∙ h k user)

  torn-Behind :
      (n : ℕ) (app : KvStoreApp b) → Behind n app.state → Behind n (torn_db b app (chain n))
  torn-Behind n app behind =
      elim (returned_or_not (App.write_staged b (finalized b app (chain n))).0) [
        | inl written ↦ inr (torn-Holds n app behind written)
        | inr failed ↦
            Behind-same n app.state (torn_db b app (chain n))
              (λ k. at-torn_failed b l app (chain n) k failed) behind
      ]

  Runs-Behind : {n : ℕ} {app : KvStoreApp b} → Runs b sum256 start chain n app → Behind n app.state
  unfolding data_after
  Runs-Behind booted = inl (λ k user. refl)
  Runs-Behind (committed {n} {app} run written saved) =
      inl (execute-Holds n app (Runs-Behind run) written)
  Runs-Behind (restarted {n} {app} {app'} run made) =
      subst (Behind n) (sym (state-new_kv_store_app b app.state app' made)) (Runs-Behind run)
  Runs-Behind (torn {n} {app} {app'} run made) =
      subst (Behind n) (sym (state-new_kv_store_app b (torn_db b app (chain n)) app' made))
        (torn-Behind n app (Runs-Behind run))

  -- However often the process ended on the way, and wherever: a block whose pairs Badger takes leaves the
  -- data of the blocks up to it, as if no process had ended, and two nodes report the same hash for it.
  pub crashes_agree :
      {n : ℕ} {app app' : KvStoreApp b}
      → Runs b sum256 start chain n app
      → Runs b sum256 start chain n app'
      → Written b (finalized b app (chain n))
      → Written b (finalized b app' (chain n))
      → Holds (suc n) (execute b sum256 app (chain n)).state
        × ((execute b sum256 app (chain n)).app_hash ≡ (execute b sum256 app' (chain n)).app_hash)
  crashes_agree {n} {app} {app'} run run' written written' =
      let held = execute-Holds n app (Runs-Behind run) written in
      let held' = execute-Holds n app' (Runs-Behind run') written' in
      (
        held,
        sym (hash-execute app (chain n))
            ∙ hash_ext b l sum256 _ _ (λ k user. held k user ∙ sym (held' k user))
            ∙ hash-execute app' (chain n),
      )
