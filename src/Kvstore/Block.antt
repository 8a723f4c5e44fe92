-- ===== src/Kvstore/Block.antt =====
-- Blocks: `FinalizeBlock` and `Commit` as CometBFT calls them, one after the other.
use poc_cometbft.Prelude.{
  List, [], ◌∷◌, ◌++◌, ◌≡◌, ◌≢◌, refl, ap, sym, ◌∙◌, false, Option, none, some, ok, arith, map,
  Option-cases, inl, inr,
}
use poc_cometbft.Bytes.{Bytes, bytes}
use poc_cometbft.Kvstore.Badger.{Badger, Laws}
use poc_cometbft.Kvstore.State
use poc_cometbft.Kvstore.State.{is_meta}
use poc_cometbft.Kvstore.Data.{last_write, at}
use poc_cometbft.Kvstore.Hash.{hash_ext}
use poc_cometbft.Kvstore.Commit.{Written, at-commit, hash-commit}
use poc_cometbft.Kvstore.Tx.{staged_by_all, deliver_lem}
use poc_cometbft.Kvstore.App
use poc_cometbft.Kvstore.App.{
  KvStoreApp, RequestFinalizeBlock, ResponseFinalizeBlock, ResponseQuery, TxResult, check_tx,
  exec_result, is_valid_tx,
}

-- `CheckTx` admits to the mempool exactly the transactions that a block executes with code 0.
pub check_tx-exec_result : (tx : Bytes) → (check_tx tx).code ≡ (exec_result tx).code
unfolding check_tx exec_result
check_tx-exec_result tx = ground arith

module _ (b : Badger) where
  -- One block, decided and committed.
  unfoldable pub execute : (Bytes → Bytes) → KvStoreApp b → RequestFinalizeBlock → KvStoreApp b
  execute sum256 app req = App.commit b sum256 (App.finalize_block b app req).0

  unfoldable pub execute_all :
      (Bytes → Bytes) → KvStoreApp b → List RequestFinalizeBlock → KvStoreApp b
  unfolding execute
  execute_all sum256 app [] = app
  execute_all sum256 app (req ∷ reqs) = execute_all sum256 (execute sum256 app req) reqs

  -- `FinalizeBlock` stages the pairs of the valid transactions in their order, answers every
  -- transaction in its place, takes over the height, and leaves database and hash as they were. Its
  -- response has no app hash.
  pub finalize_block_lem :
      (app : KvStoreApp b) (req : RequestFinalizeBlock)
      → App.finalize_block b app req ≡ (
        record app { height = req.height; staged = staged_by_all req.txs },
        record { tx_results = map exec_result req.txs; app_hash = [] },
      )
  unfolding App.finalize_block
  finalize_block_lem app req = rw deliver_lem refl

module _ (b : Badger) (sum256 : Bytes → Bytes) where
  -- Badger takes the writes of every one of the blocks.
  abbrev pub AllWritten : KvStoreApp b → List RequestFinalizeBlock → Type 0
  AllWritten app [] = Unit
  AllWritten app (req ∷ reqs) =
      Written b (App.finalize_block b app req).0 × AllWritten (execute b sum256 app req) reqs

module _ (b : Badger) (l : Laws b) where
  -- The two databases agree on the clients' keys.
  abbrev pub SameData : KvStoreApp b → KvStoreApp b → Type 0
  SameData app app' = (k : Bytes) → is_meta k ≡ false → at b l app.state k ≡ at b l app'.state k

module _ (b : Badger) (l : Laws b) (sum256 : Bytes → Bytes) where
  pub at-execute :
      (app : KvStoreApp b) (req : RequestFinalizeBlock) (k : Bytes)
      → is_meta k ≡ false
      → Written b (App.finalize_block b app req).0
      → at b l (execute b sum256 app req).state k
        ≡ last_write k (staged_by_all req.txs) (at b l app.state k)
  unfolding execute
  at-execute app req k user h =
      at-commit b l sum256 (App.finalize_block b app req).0 k user h
      ∙ ap (λ r. last_write k (KvStoreApp.staged (r.0)) (at b l (KvStoreApp.state (r.0)) k))
          (finalize_block_lem b app req)

  SameData-execute :
      (app app' : KvStoreApp b) (req : RequestFinalizeBlock)
      → SameData b l app app'
      → Written b (App.finalize_block b app req).0
      → Written b (App.finalize_block b app' req).0
      → SameData b l (execute b sum256 app req) (execute b sum256 app' req)
  SameData-execute app app' req same h h' k user =
      at-execute app req k user h
      ∙ ap (last_write k (staged_by_all req.txs)) (same k user)
      ∙ sym (at-execute app' req k user h')

  SameData-execute_all :
      (reqs : List RequestFinalizeBlock) (app app' : KvStoreApp b)
      → SameData b l app app'
      → AllWritten b sum256 app reqs
      → AllWritten b sum256 app' reqs
      → SameData b l (execute_all b sum256 app reqs) (execute_all b sum256 app' reqs)
  unfolding execute_all
  SameData-execute_all [] app app' same h h' = same
  SameData-execute_all (req ∷ reqs) app app' same h h' =
      SameData-execute_all reqs (execute b sum256 app req) (execute b sum256 app' req)
        (SameData-execute app app' req same h.0 h'.0) h.1 h'.1

  -- Two nodes that start from the same data, on databases of any history, and execute the same blocks
  -- and then one more, report the same hash for it, provided that Badger takes the writes on both.
  pub replicas_agree :
      (app app' : KvStoreApp b) (reqs : List RequestFinalizeBlock) (req : RequestFinalizeBlock)
      → SameData b l app app'
      → AllWritten b sum256 app (reqs ++ (req ∷ []))
      → AllWritten b sum256 app' (reqs ++ (req ∷ []))
      → (execute_all b sum256 app (reqs ++ (req ∷ []))).app_hash
        ≡ (execute_all b sum256 app' (reqs ++ (req ∷ []))).app_hash
  unfolding execute_all execute
  replicas_agree app app' [] req same h h' =
      sym (hash-commit b l sum256 (App.finalize_block b app req).0)
      ∙ hash_ext b l sum256 _ _ (SameData-execute app app' req same h.0 h'.0)
      ∙ hash-commit b l sum256 (App.finalize_block b app' req).0
  replicas_agree app app' (r ∷ reqs) req same h h' =
      replicas_agree (execute b sum256 app r) (execute b sum256 app' r) reqs req
        (SameData-execute app app' r same h.0 h'.0) h.1 h'.1

-- What `Query` answers, given what the database has at the key.
abbrev pub answer : Bytes → Option Bytes → ResponseQuery
answer key none = record { code = 1; log = bytes "key not found: " ++ key; key = []; value = [] }
answer key (some v) = record { code = 0; log = []; key = key; value = v }

module _ (b : Badger) (l : Laws b) where
  -- `Query` tells what the database has at the key.
  pub query_lem :
      (app : KvStoreApp b) (key : Bytes)
      → key ≢ []
      → App.query b app key ≡ ok (answer key (at b l app.state key))
  unfolding App.query State.get
  query_lem app key ne = elim (Option-cases (at b l app.state key)) [
    | inl missing ↦ let (e, failed, _) = l.get_miss _ key ne missing in rw (failed, missing) refl
    | inr (v, found) ↦ let (i, got, val) = l.get_hit _ key v found in rw (got, found, val) refl
  ]

module _ (b : Badger) (l : Laws b) (sum256 : Bytes → Bytes) where
  -- After a block whose writes Badger took, a query of a client's key that is not empty answers with the value of the
  -- last valid transaction in the block for the key, or as before the block if there is none.
  pub query-execute :
      (app : KvStoreApp b) (req : RequestFinalizeBlock) (key : Bytes)
      → key ≢ []
      → is_meta key ≡ false
      → Written b (App.finalize_block b app req).0
      → App.query b (execute b sum256 app req) key
        ≡ ok (answer key (last_write key (staged_by_all req.txs) (at b l app.state key)))
  query-execute app req key ne user h =
      query_lem b l (execute b sum256 app req) key ne
      ∙ ap (λ o. ok (answer key o)) (at-execute b l sum256 app req key user h)
