-- ===== src/Api/ChainClient.antt =====
-- api-backend/client/chain.go: signing, broadcasting, and the operations on tasks. Log lines are left
-- out. An error is its text.
use poc_cometbft.Prelude.{
  ℕ, List, [], ◌∷◌, ◌++◌, Option, Outcome, ok, err, panic, ◌>>=◌, if◌then◌else◌, ◌==◌,
}
use poc_cometbft.Bytes.{Bytes, bytes}
use poc_cometbft.Bytes.Wrap.{wrap}
use poc_cometbft.Bytes.Text.{decimal}
use poc_cometbft.Taskreg.Types.{Task}
use poc_cometbft.Taskreg.History.{Msg}

-- `ResultBroadcastTx`, its hash as `String()` shows it.
pub record Broadcast : Type 0 where
  pub code : ℕ
  pub log : Bytes
  pub hash : Bytes

pub record TxResponse : Type 0 where
  pub tx_hash : Bytes
  pub code : ℕ

-- wasm's `MsgExecuteContract`; funds that are nil are none.
pub record MsgExecuteContract (Coins : Type 0) : Type 0 where
  pub sender : Bytes
  pub contract : Bytes
  pub msg : Bytes
  pub funds : Option Coins

-- What the client sends in a transaction: a message of the task registry, or one to a contract.
pub data SdkMsg (Coins : Type 0) : Type 0 where
  registry : Msg → SdkMsg Coins
  execute : MsgExecuteContract Coins → SdkMsg Coins

-- What the client uses of the keyring, of the SDK's factory and of the node. `build`, `sign` and
-- `encode` are `BuildUnsignedTx` with an account number and a sequence, `Sign` and the encoder;
-- `parse_coin` and `new_coins` are `sdk.ParseCoinNormalized` and `sdk.NewCoins` of one coin.
pub record Chain : Type 1 where
  pub Node : Type 0
  pub Key : Type 0
  pub AnyAccount : Type 0
  pub Tx : Type 0
  pub key : Outcome Bytes Key
  pub get_address : Key → Outcome Bytes Bytes
  pub query_account : Node → Bytes → Outcome Bytes AnyAccount
  pub unpack_any : AnyAccount → Outcome Bytes (ℕ × ℕ)
  pub Coin : Type 0
  pub Coins : Type 0
  pub build : ℕ → ℕ → List (SdkMsg Coins) → Outcome Bytes Tx
  pub sign : Tx → Outcome Bytes Tx
  pub encode : Tx → Outcome Bytes Bytes
  pub broadcast_tx_sync : Node → Bytes → Outcome Bytes Broadcast × Node
  pub query_task : Node → ℕ → Outcome Bytes Task
  pub query_list_tasks : Node → Outcome Bytes (List Task)
  pub status : Node → Outcome Bytes (Unit {0})
  pub parse_coin : Bytes → Outcome Bytes Coin
  pub new_coins : Coin → Outcome Bytes Coins
  pub smart_contract_state : Node → Bytes → Bytes → Outcome Bytes Bytes
  pub contracts_by_code : Node → ℕ → Outcome Bytes (List Bytes)
  pub Json : Type 0
  pub unmarshal_json : Bytes → Outcome Bytes Json

module _ (c : Chain) where
  unfoldable pub get_signer_addr : Outcome Bytes Bytes
  get_signer_addr = do rec ← c.key; c.get_address rec

  -- The account number and the sequence.
  unfoldable pub get_account : c.Node → Bytes → Outcome Bytes (ℕ × ℕ)
  get_account node addr = do resp ← c.query_account node addr; c.unpack_any resp

  -- `broadcastMsg` up to the bytes that it sends.
  unfoldable pub signed_bytes : c.Node → List (SdkMsg c.Coins) → Outcome Bytes Bytes
  unfolding get_signer_addr get_account
  signed_bytes node msgs = do
    addr ← wrap (bytes "get signer: ") get_signer_addr
    acc ← wrap (bytes "get account: ") (get_account node addr)
    tx ← wrap (bytes "build tx: ") (c.build acc.0 acc.1 msgs)
    tx' ← wrap (bytes "sign: ") (c.sign tx)
    wrap (bytes "encode tx: ") (c.encode tx')

  unfoldable pub sent : Outcome Bytes Broadcast → Outcome Bytes TxResponse
  sent (ok result) =
      if result.code == 0
      then ok (record { tx_hash = result.hash; code = result.code })
      else err (bytes "tx failed (code " ++ (decimal result.code ++ (bytes "): " ++ result.log)))
  sent (err e) = err (bytes "broadcast: " ++ e)
  sent panic = panic

  unfoldable pub send : c.Node → Outcome Bytes Bytes → Outcome Bytes TxResponse × c.Node
  unfolding sent
  send node (ok tx_bytes) =
      let (result, node') = c.broadcast_tx_sync node tx_bytes in (sent result, node')
  send node (err e) = (err e, node)
  send node panic = (panic, node)

  unfoldable pub broadcast_msg : c.Node → List (SdkMsg c.Coins) → Outcome Bytes TxResponse × c.Node
  unfolding send signed_bytes
  broadcast_msg node msgs = send node (signed_bytes node msgs)

  unfoldable pub tx_hash_of : Outcome Bytes TxResponse × c.Node → Outcome Bytes Bytes × c.Node
  tx_hash_of (ok resp, node) = (ok resp.tx_hash, node)
  tx_hash_of (err e, node) = (err e, node)
  tx_hash_of (panic, node) = (panic, node)

  -- The message that an operation made, broadcast; the answer is the transaction's hash.
  unfoldable pub broadcast_made :
      c.Node → Outcome Bytes (SdkMsg c.Coins) → Outcome Bytes Bytes × c.Node
  unfolding tx_hash_of broadcast_msg
  broadcast_made node (ok msg) = tx_hash_of (broadcast_msg node (msg ∷ []))
  broadcast_made node (err e) = (err e, node)
  broadcast_made node panic = (panic, node)

  unfoldable pub create_task : c.Node → Bytes → Bytes → Outcome Bytes Bytes × c.Node
  unfolding broadcast_made
  create_task node title description = broadcast_made node (do
    addr ← get_signer_addr
    ok (
        registry
          (Msg.create (record { creator = addr; title = title; description = description }))))

  unfoldable pub get_task : c.Node → ℕ → Outcome Bytes Task
  get_task node id = c.query_task node id

  unfoldable pub list_tasks : c.Node → Outcome Bytes (List Task)
  list_tasks node = c.query_list_tasks node

  unfoldable pub assign_task : c.Node → ℕ → Bytes → Outcome Bytes Bytes × c.Node
  unfolding broadcast_made
  assign_task node task_id assignee = broadcast_made node (do
    addr ← get_signer_addr
    ok (registry (Msg.assign (record { creator = addr; task_id = task_id; assignee = assignee }))))

  unfoldable pub complete_task : c.Node → ℕ → Outcome Bytes Bytes × c.Node
  unfolding broadcast_made
  complete_task node task_id = broadcast_made node (do
    addr ← get_signer_addr
    ok (registry (Msg.complete (record { assignee = addr; task_id = task_id }))))

  unfoldable pub check_health : c.Node → Outcome Bytes (Unit {0})
  check_health node = c.status node
