-- ===== src/Api/RegistryChain.antt =====
-- A chain that runs the registry, as the backend's client sees it: it checks a transaction with
-- `ValidateBasic` of mychain/x/taskreg/types/msgs.go and the ante handler of mychain/app/ante.go, when it is
-- broadcast and again in its block, and delivers its messages in the block.
use poc_cometbft.Prelude.{
  ℕ, ◌≡◌, ◌≢◌, refl, List, [], ◌∷◌, ◌++◌, Option, none, some, Outcome, ok, err, panic, ==_iff, ◌==◌,
  ◌⊎◌, inl, inr, Bool-cases, false,
}
use poc_cometbft.Bytes.{Bytes, bytes}
use poc_cometbft.Bytes.Text.{decimal}
use poc_cometbft.Taskreg.Types.{Task, Error}
use poc_cometbft.Taskreg.Store.{KvStoreService, StoreLaws, Codec, CodecLaws}
use poc_cometbft.Taskreg.MsgServer.{Context}
use poc_cometbft.Taskreg.Query
use poc_cometbft.Taskreg.Query.{QueryListTasksResponse}
use poc_cometbft.Taskreg.Registry.{Registry, IsRegistry}
use poc_cometbft.Taskreg.Refines.{Abstracts}
use poc_cometbft.Taskreg.History.{Msg, IsMsg, deliver_all, deliver-refines, apply}
use poc_cometbft.Taskreg.Valid.{validate}
use poc_cometbft.Api.ChainClient
use poc_cometbft.Api.ChainClient.{SdkMsg, registry, Chain, Broadcast}

==-false : (a b : ℕ) → a ≢ b → (a == b) ≡ false
==-false a b ne = elim (Bool-cases (a == b)) [
  | inl same ↦ absurd (ne ((==_iff a b).0 same))
  | inr other ↦ other
]

-- An error of the chain: its code, which is not zero, and its text.
pub record Refusal : Type 0 where
  pub code : ℕ
  pub positive : code ≢ 0
  pub log : Bytes

-- What the chain checks a transaction by, besides `ValidateBasic`: the parser of addresses and the errors
-- that `ValidateBasic` returns; the error that the SDK makes of a panic; and the ante handler, on the
-- accounts that it reads and writes. An account is its number and its sequence.
pub record Checks : Type 1 where
  pub Accounts : Type 0
  pub parse_address : Bytes → Option Refusal
  pub title_refusal : Refusal
  pub recovered : Refusal
  pub account : Accounts → Bytes → ℕ × ℕ
  pub ante : Accounts → Bytes → Refusal ⊎ Accounts

-- The chain between two blocks: the registry and the accounts behind the last block, the accounts on
-- which transactions are checked, and those that were taken.
pub record RegistryNode (s : KvStoreService) (k : Checks) : Type 0 where
  pub context : Context s
  pub accounts : k.Accounts
  pub checked : k.Accounts
  pub pending : List Bytes

-- The encoding of a signed transaction, made with the signer's account number and sequence, and the
-- messages of the registry that the chain decodes from it; the hash of a transaction.
pub record TxCodec : Type 0 where
  pub encode : ℕ × ℕ → List (SdkMsg (Unit {0})) → Bytes
  pub decode : Bytes → List Msg
  pub hash_of : Bytes → Bytes

pub record TxLaws (x : TxCodec) : Type 0 where
  pub decode-encode :
      (account : ℕ × ℕ) (msg : Msg) → x.decode (x.encode account (registry msg ∷ [])) ≡ msg ∷ []

module _ (k : Checks) where
  -- The error of `ValidateBasic` of the first message that has one.
  unfoldable pub invalid : List Msg → Option Refusal
  invalid [] = none
  invalid (msg ∷ msgs) =
      let rest = invalid msgs in
      elim (validate k.parse_address k.title_refusal msg) [
        | ok u ↦ rest
        | err e ↦ some e
        | panic ↦ some k.recovered
      ]

  -- A transaction whose messages are valid goes on to the ante handler.
  unfoldable pub checked_on : k.Accounts → Bytes → Option Refusal → Refusal ⊎ k.Accounts
  checked_on accounts tx none = k.ante accounts tx
  checked_on accounts tx (some refusal) = inl refusal

module _ (s : KvStoreService) (cdc : Codec) (x : TxCodec) (k : Checks) (signer : Bytes) where
  unfoldable pub check : k.Accounts → Bytes → Refusal ⊎ k.Accounts
  unfolding invalid checked_on
  check accounts tx = checked_on k accounts tx (invalid k (x.decode tx))

  -- What `BroadcastTxSync` returns, and the node, behind the check of a transaction.
  abbrev pub taken_or_not :
      RegistryNode s k → Bytes → Refusal ⊎ k.Accounts → Outcome Bytes Broadcast × RegistryNode s k
  taken_or_not node tx (inl refusal) =
      (ok (record { code = refusal.code; log = refusal.log; hash = x.hash_of tx }), node)
  taken_or_not node tx (inr accounts) = (
    ok (record { code = 0; log = []; hash = x.hash_of tx }),
    record node { checked = accounts; pending = node.pending ++ (tx ∷ []) },
  )

  abbrev pub task_result : Outcome Error Task → Outcome Bytes Task
  task_result (ok t) = ok t
  task_result (err e) = err e.message
  task_result panic = panic

  abbrev pub list_result : Outcome Error QueryListTasksResponse → Outcome Bytes (List Task)
  list_result (ok response) = ok response.tasks
  list_result (err e) = err e.message
  list_result panic = panic

  -- An account is read from the state behind the last block.
  abbrev pub registry_chain : Chain
  registry_chain = record {
    Node = RegistryNode s k;
    Key = Unit;
    AnyAccount = ℕ × ℕ;
    Tx = (ℕ × ℕ) × List (SdkMsg (Unit {0}));
    key = ok tt;
    get_address = λ k. ok signer;
    query_account = λ node addr. ok (k.account node.accounts addr);
    unpack_any = λ account. ok account;
    build = λ number sequence msgs. ok ((number, sequence), msgs);
    sign = λ tx. ok tx;
    encode = λ tx. ok (x.encode tx.0 tx.1);
    broadcast_tx_sync = λ node tx. taken_or_not node tx (check node.checked tx);
    query_task = λ node id. task_result (Query.query_task s cdc node.context.store (some id));
    query_list_tasks = λ node.
        list_result
          (Query.list_tasks s cdc node.context.store (some (record { pagination = none })));
    status = λ node. ok tt;
    Coin = Unit;
    Coins = Unit;
    parse_coin = λ text. ok tt;
    new_coins = λ coin. ok coin;
    smart_contract_state = λ node contract query. err (bytes "no contract");
    contracts_by_code = λ node code_id. ok [];
    Json = Unit;
    unmarshal_json = λ data_bytes. ok tt;
  }

  -- A transaction in a block is checked again, on the accounts behind those before it.
  abbrev pub execute :
      k.Accounts × Context s → Bytes → Refusal ⊎ k.Accounts → k.Accounts × Context s
  execute state tx (inl refusal) = state
  execute state tx (inr accounts) = (accounts, deliver_all s cdc state.1 (x.decode tx))

  abbrev pub execute_all : k.Accounts × Context s → List Bytes → k.Accounts × Context s
  execute_all state [] = state
  execute_all state (tx ∷ txs) = execute_all (execute state tx (check state.0 tx)) txs

  abbrev pub next_block : RegistryNode s k → RegistryNode s k
  next_block node =
      let (accounts, context) = execute_all (node.accounts, node.context) node.pending in
      record { context = context; accounts = accounts; checked = accounts; pending = [] }

  -- The node behind a block.
  abbrev pub idle : Context s → k.Accounts → RegistryNode s k
  idle context accounts = record {
    context = context;
    accounts = accounts;
    checked = accounts;
    pending = [];
  }

  -- The transaction that the client makes of a message.
  abbrev pub tx_of : k.Accounts → Msg → Bytes
  tx_of accounts msg = x.encode (k.account accounts signer) (registry msg ∷ [])

  -- What the client returns for a message, and the node, behind the check of its transaction.
  abbrev pub returned :
      Context s → k.Accounts → Msg → Refusal ⊎ k.Accounts → Outcome Bytes Bytes × RegistryNode s k
  returned context accounts msg (inl refusal) = (
    err (bytes "tx failed (code " ++ (decimal refusal.code ++ (bytes "): " ++ refusal.log))),
    idle context accounts,
  )
  returned context accounts msg (inr accounts') = (
    ok (x.hash_of (tx_of accounts msg)),
    record {
      context = context;
      accounts = accounts;
      checked = accounts';
      pending = tx_of accounts msg ∷ [];
    },
  )

  -- The registry behind the next block.
  abbrev pub after : Registry → Msg → Refusal ⊎ k.Accounts → Registry
  after r msg (inl refusal) = r
  after r msg (inr accounts) = apply r msg

module _ (s : KvStoreService) (sl : StoreLaws s) (cdc : Codec) (cl : CodecLaws cdc) (x : TxCodec)
    (xl : TxLaws x) (k : Checks) (signer : Bytes) where
  abbrev chain_here : Chain
  chain_here = registry_chain s cdc x k signer

  pub broadcast_made-returned :
      (context : Context s) (accounts : k.Accounts) (msg : Msg) (o : Refusal ⊎ k.Accounts)
      → check s cdc x k signer accounts (tx_of s cdc x k signer accounts msg) ≡ o
      → ChainClient.broadcast_made chain_here
          (idle s cdc x k signer context accounts)
          (ok (registry msg))
        ≡ returned s cdc x k signer context accounts msg o
  unfolding ChainClient.broadcast_made ChainClient.broadcast_msg
  broadcast_made-returned context accounts msg (inl refusal) e =
      rw (e, ==-false refusal.code 0 refusal.positive) refl
  broadcast_made-returned context accounts msg (inr accounts') e = rw e refl

  -- The message is delivered in the next block where the node took the transaction.
  pub executed :
      (context : Context s) (accounts : k.Accounts) (r : Registry) (msg : Msg)
      (o : Refusal ⊎ k.Accounts)
      → check s cdc x k signer accounts (tx_of s cdc x k signer accounts msg) ≡ o
      → Abstracts s cdc context.store r
      → IsRegistry r
      → IsMsg msg
      → Abstracts s cdc
          (next_block s cdc x k signer
            (returned s cdc x k signer context accounts msg o).1).context.store
          (after s cdc x k signer r msg o)
  unfolding deliver_all
  executed context accounts r msg (inl refusal) e a v h = a
  executed context accounts r msg (inr accounts') e a v h =
      rw (e, xl.decode-encode (k.account accounts signer) msg)
        (deliver-refines s sl cdc cl context r msg a v h)
