-- ===== src/Api/KvClient.antt =====
-- api-backend/client/kvstore.go. Log lines are left out. An error is its text.
use poc_cometbft.Prelude.{List, [], ◌∷◌, ◌++◌, Outcome, ok, err, panic, if◌then◌else◌, ◌==◌}
use poc_cometbft.Bytes.{Bytes, bytes}
use poc_cometbft.Kvstore.App.{TxResult, ResponseQuery}

-- `ResultBroadcastTxCommit`, as far as the code reads it.
pub record Committed : Type 0 where
  pub tx_result : TxResult
  pub hash : Bytes

-- What the client uses of the node's RPC: a call that writes returns the node after it.
pub record Rpc : Type 1 where
  pub Node : Type 0
  pub broadcast_tx_commit : Node → Bytes → Outcome Bytes Committed × Node
  pub abci_query : Node → Bytes → Outcome Bytes ResponseQuery
  pub status : Node → Outcome Bytes (Unit {0})

-- `new_rpc` is `rpchttp.New`.
unfoldable pub new_kv_store_client :
    (Bytes → Bytes → Outcome Bytes (Unit {0})) → Bytes → Outcome Bytes (Unit {0})
new_kv_store_client new_rpc rpc_addr = made (new_rpc rpc_addr (bytes "/websocket"))
  where
    made : Outcome Bytes (Unit {0}) → Outcome Bytes (Unit {0})
    made (ok client) = ok client
    made (err e) = err (bytes "failed to create KV RPC client: " ++ e)
    made panic = panic

-- `hex.EncodeToString` is a parameter.
module _ (r : Rpc) (hex : Bytes → Bytes) where
  unfoldable pub set_answer :
      Bytes → Bytes → Outcome Bytes Committed → Outcome Bytes (List (Bytes × Bytes))
  set_answer key value (ok result) =
      if result.tx_result.code == 0
      then ok
          ((bytes "tx_hash", hex result.hash) ∷ (bytes "key", key) ∷ (bytes "value", value) ∷ [])
      else err (bytes "tx failed: " ++ result.tx_result.log)
  set_answer key value (err e) = err (bytes "broadcast tx: " ++ e)
  set_answer key value panic = panic

  unfoldable pub set : r.Node → Bytes → Bytes → Outcome Bytes (List (Bytes × Bytes)) × r.Node
  unfolding set_answer
  set node key value =
      let (result, node') = r.broadcast_tx_commit node (key ++ (b'=' ∷ value)) in
      (set_answer key value result, node')

  unfoldable pub get_answer : Outcome Bytes ResponseQuery → Outcome Bytes Bytes
  get_answer (ok result) =
      if result.code == 0 then ok result.value else err (bytes "key not found: " ++ result.log)
  get_answer (err e) = err (bytes "ABCI query: " ++ e)
  get_answer panic = panic

  unfoldable pub get : r.Node → Bytes → Outcome Bytes Bytes
  unfolding get_answer
  get node key = get_answer (r.abci_query node key)

  unfoldable pub check_health : r.Node → Outcome Bytes (Unit {0})
  check_health node = r.status node
