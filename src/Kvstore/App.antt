-- ===== src/Kvstore/App.antt =====
-- abci-kvstore/app.go. Log lines are left out, and of each request and response the fields that the
-- code reads or sets.
use poc_cometbft.Prelude.{
  ℕ, List, [], ◌∷◌, ◌++◌, Bool, ◌&&◌, Outcome, ok, err, panic, ◌>>=◌, if◌then◌else◌, length, get_or,
  ltb, ◌==◌,
}
use poc_cometbft.Bytes.{Bytes, bytes}
use poc_cometbft.Bytes.Split.{split_2}
use poc_cometbft.Kvstore.Badger.{Badger}
use poc_cometbft.Kvstore.State

unfoldable pub is_valid_tx : Bytes → Bool
is_valid_tx tx =
    let parts = split_2 b'=' tx in length parts == 2 && ltb 0 (length (get_or [] parts 0))

-- The pair that a valid transaction stages.
unfoldable pub parse_tx : Bytes → Bytes × Bytes
parse_tx tx = let parts = split_2 b'=' tx in (get_or [] parts 0, get_or [] parts 1)

pub record ResponseInfo : Type 0 where
  pub info : Bytes
  pub version : Bytes
  pub app_version : ℕ
  pub last_block_height : ℕ
  pub last_block_app_hash : Bytes

-- `Code` and `Log` of `ResponseCheckTx` and of `ExecTxResult`.
pub record TxResult : Type 0 where
  pub code : ℕ
  pub log : Bytes

pub record ResponseQuery : Type 0 where
  pub code : ℕ
  pub log : Bytes
  pub key : Bytes
  pub value : Bytes

pub record RequestFinalizeBlock : Type 0 where
  pub txs : List Bytes
  pub height : ℕ

-- The handler sets `tx_results` alone, so that `app_hash` has Go's zero value.
pub record ResponseFinalizeBlock : Type 0 where
  pub tx_results : List TxResult
  pub app_hash : Bytes

pub data ProposalStatus : Type 0 where
  accept reject : ProposalStatus

unfoldable pub check_tx : Bytes → TxResult
unfolding is_valid_tx
check_tx tx =
    if is_valid_tx tx
    then record { code = 0; log = [] }
    else record { code = 1; log = bytes "invalid tx format, expected key=value" }

unfoldable pub exec_result : Bytes → TxResult
unfolding is_valid_tx
exec_result tx =
    if is_valid_tx tx
    then record { code = 0; log = [] }
    else record { code = 1; log = bytes "invalid tx" }

-- The loop of `FinalizeBlock` over `staged` and `txResults`.
unfoldable pub deliver :
    List Bytes → List (Bytes × Bytes) → List TxResult → List (Bytes × Bytes) × List TxResult
unfolding is_valid_tx parse_tx exec_result
deliver [] staged results = (staged, results)
deliver (tx ∷ txs) staged results =
    deliver txs (if is_valid_tx tx then staged ++ (parse_tx tx ∷ []) else staged)
      (results ++ (exec_result tx ∷ []))

unfoldable pub prepare_proposal : List Bytes → List Bytes
prepare_proposal txs = txs

unfoldable pub process_proposal : List Bytes → ProposalStatus
process_proposal txs = accept

pub record KvStoreApp (b : Badger) : Type 0 where
  pub state : b.Db
  pub height : ℕ
  pub app_hash : Bytes
  pub staged : List (Bytes × Bytes)

module _ (b : Badger) where
  -- An error or a panic ends the process.
  unfoldable pub new_kv_store_app : b.Db → Outcome b.Error (KvStoreApp b)
  new_kv_store_app state = do
    (height, app_hash) ← State.load_meta b state
    ok (record { state = state; height = height; app_hash = app_hash; staged = [] })

  unfoldable pub info : KvStoreApp b → ResponseInfo
  info app = record {
    info = bytes "kvstore";
    version = bytes "1.0.0";
    app_version = 1;
    last_block_height = app.height;
    last_block_app_hash = app.app_hash;
  }

  unfoldable pub query_response : Bytes → Outcome b.Error Bytes → Outcome b.Error ResponseQuery
  query_response key (ok val) = ok (record { code = 0; log = []; key = key; value = val })
  query_response key (err e) =
      ok (record { code = 1; log = bytes "key not found: " ++ key; key = []; value = [] })
  query_response key panic = panic

  unfoldable pub query : KvStoreApp b → Bytes → Outcome b.Error ResponseQuery
  unfolding query_response
  query app key = query_response key (State.get b app.state key)

  unfoldable pub finalize_block :
      KvStoreApp b → RequestFinalizeBlock → KvStoreApp b × ResponseFinalizeBlock
  unfolding deliver
  finalize_block app req =
      let (staged, results) = deliver req.txs [] [] in
      (
        record app { height = req.height; staged = staged },
        record { tx_results = results; app_hash = [] },
      )

  -- What `Commit` gets from `BatchSet`, which it calls only where something is staged.
  unfoldable pub write_staged : KvStoreApp b → Outcome b.Error (Unit {0}) × b.Db
  write_staged app =
      if ltb 0 (length app.staged)
      then State.batch_set b app.state app.staged
      else (ok tt, app.state)

  -- The errors of `BatchSet` and of `SaveMeta` are logged and dropped.
  unfoldable pub commit : (Bytes → Bytes) → KvStoreApp b → KvStoreApp b
  unfolding write_staged
  commit sum256 app =
      let written = (write_staged app).1 in
      let app_hash = State.hash b sum256 written in
      record app {
        state = (State.save_meta b written app.height app_hash).1;
        app_hash = app_hash;
        staged = [];
      }
