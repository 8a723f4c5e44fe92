-- ===== src/Api/Stored.antt =====
-- The backend's key-value client on one node that runs the application.
use poc_cometbft.Prelude.{[], ◌∷◌, Outcome, ok, err, panic}
use poc_cometbft.Bytes.{Bytes, bytes}
use poc_cometbft.Kvstore.Badger.{Badger, Laws}
use poc_cometbft.Kvstore.App
use poc_cometbft.Kvstore.App.{
  KvStoreApp, RequestFinalizeBlock, ResponseQuery, parse_tx, exec_result,
}
use poc_cometbft.Kvstore.Block.{execute}
use poc_cometbft.Api.KvClient
use poc_cometbft.Api.KvClient.{Rpc}

-- `BroadcastTxCommit` returns when a block has the transaction; here the block has no other. The hash
-- of the transaction is a parameter.
module _ (b : Badger) (sum256 : Bytes → Bytes) (tx_hash : Bytes → Bytes) where
  abbrev pub block_of : KvStoreApp b → Bytes → RequestFinalizeBlock
  block_of app tx = record { txs = tx ∷ []; height = app.height }

  abbrev pub query_result : Outcome b.Error ResponseQuery → Outcome Bytes ResponseQuery
  query_result (ok response) = ok response
  query_result (err e) = err (bytes "query failed")
  query_result panic = panic

  abbrev pub one_node : Rpc
  one_node = record {
    Node = KvStoreApp b;
    broadcast_tx_commit = λ app tx. (
      ok (record { tx_result = exec_result tx; hash = tx_hash tx }),
      execute b sum256 app (block_of app tx),
    );
    abci_query = λ app key. query_result (App.query b app key);
    status = λ app. ok tt;
  }

module _ (b : Badger) (l : Laws b) (sum256 tx_hash hex : Bytes → Bytes) where
  abbrev node_rpc : Rpc
  node_rpc = one_node b sum256 tx_hash
