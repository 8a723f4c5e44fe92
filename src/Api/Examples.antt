-- ===== src/Api/Examples.antt =====
-- Runs of the backend on a chain that takes every transaction, and on one node of the application.
use poc_cometbft.Prelude.{
  none, ◌⊎◌, some, ◌≤◌, ◌==◌, if◌then◌else◌, ℕ, List, [], ◌∷◌, ◌++◌, ◌≡◌, refl, Option, ok, err,
  length, arith,
}
use poc_cometbft.Bytes.{Bytes, bytes, bytes_eq}
use poc_cometbft.Kvstore.Memory.{memory, empty}
use poc_cometbft.Kvstore.State
use poc_cometbft.Kvstore.App
use poc_cometbft.Kvstore.App.{KvStoreApp}
use poc_cometbft.Taskreg.History.{Msg}
use poc_cometbft.Api.KvClient
use poc_cometbft.Api.ChainClient.{
  SdkMsg, registry, Chain, TxResponse, broadcast_made, broadcast_msg, get_signer_addr,
}
use poc_cometbft.Api.Handlers.{tx_hash}
use poc_cometbft.Api.Statuses.{Sent, broadcast_msg_lem}
use poc_cometbft.Bytes.ParseUint.{IsUint, parse_uint, parse_digits, is_digit}
use poc_cometbft.Api.KvClient.{new_kv_store_client}
use poc_cometbft.Api.Contract.{
  Client, Connect, new_chain_client, resolve_contract_by_code_id, set_contract_addr,
}
use poc_cometbft.Api.Bounties
use poc_cometbft.Api.Contract
use poc_cometbft.Api.Respond.{respond_json}
use poc_cometbft.Api.Bounties.{FundBountyRequest}
use poc_cometbft.Api.Paths.{Serves, Refuses, path_ids}
use poc_cometbft.Api.Funded.{Answered, Took, funding, fund_bounty_lem}
use poc_cometbft.Api.Start.{Started, is_ready, wait_for_ready, read_config, resolve, start}
use poc_cometbft.Api.Waits.{FirstReady, wait_for_ready_lem}
use poc_cometbft.Api.Resolved.{Looked, start_lem}

-- The node keeps the transactions, the last one first.
abbrev chain : Chain
chain = record {
  Node = List Bytes;
  Key = Unit;
  AnyAccount = ℕ × ℕ;
  Tx = Bytes;
  key = ok tt;
  get_address = λ k. ok (bytes "alice");
  query_account = λ node addr. ok (7, length node);
  unpack_any = λ account. ok account;
  build = λ number sequence msgs. ok (number ∷ sequence ∷ length msgs ∷ []);
  sign = λ tx. ok (tx ++ bytes "signed");
  encode = λ tx. ok tx;
  broadcast_tx_sync = λ node tx. (ok (record { code = 0; log = []; hash = tx }), tx ∷ node);
  query_task = λ node id. err (bytes "no task");
  query_list_tasks = λ node. ok [];
  status = λ node. ok tt;
  Coin = Bytes;
  Coins = Bytes;
  parse_coin = λ text. ok text;
  new_coins = λ coin. ok coin;
  smart_contract_state = λ node contract query. ok (contract ++ query);
  contracts_by_code = λ node code_id. ok (bytes "contract" ∷ []);
  Json = Bytes;
  unmarshal_json = λ data_bytes. ok data_bytes;
}

abbrev messages : List (SdkMsg Bytes)
messages = registry (Msg.complete (record { assignee = bytes "alice"; task_id = 1 })) ∷ []

abbrev response : TxResponse
response = record { tx_hash = 7 ∷ 0 ∷ 1 ∷ bytes "signed"; code = 0 }

message_sent : (broadcast_msg chain [] messages).0 ≡ ok response
unfolding broadcast_msg
message_sent = refl

broadcast_msg_lem_example : Sent chain [] messages response (broadcast_msg chain [] messages).1
broadcast_msg_lem_example = broadcast_msg_lem chain [] messages response message_sent

abbrev same : Bytes → Bytes
same s = s

abbrev app : KvStoreApp memory
app = record { state = empty; height = 1; app_hash = []; staged = [] }

abbrev client : Client
client = record {
  chain_id = bytes "mychain-1";
  key_name = bytes "admin";
  contract_addr = bytes "contract";
}

path_ids_example :
    ((n : ℕ) × IsUint (bytes "12") n × Serves chain client [] (bytes "12") (bytes "bob") n)
    ⊎ (((n : ℕ) → ¬ IsUint (bytes "12") n) × Refuses chain client [] (bytes "12") (bytes "bob"))
path_ids_example = path_ids chain client [] (bytes "12") (bytes "bob")

abbrev funding_request : FundBountyRequest
funding_request = record { task_id = 1; amount = bytes "5"; denom = bytes "stake" }

funded :
    Answered 201
      (tx_hash (7 ∷ 0 ∷ 1 ∷ bytes "signed"))
      (Bounties.fund_bounty chain client [] (some funding_request)).0
unfolding Answered Bounties.fund_bounty Contract.fund_bounty broadcast_made respond_json
funded = (refl, refl)

fund_bounty_lem_example :
    (addr : Bytes) × (coin : Bytes) × (coins : Bytes) × (get_signer_addr chain ≡ ok addr)
    × (chain.parse_coin (bytes "5stake") ≡ ok coin)
    × (chain.new_coins coin ≡ ok coins)
    × Took chain []
        (funding chain client [] addr 1 coins)
        (7 ∷ 0 ∷ 1 ∷ bytes "signed")
        (Bounties.fund_bounty chain client [] (some funding_request)).1
fund_bounty_lem_example =
    fund_bounty_lem chain client [] funding_request (7 ∷ 0 ∷ 1 ∷ bytes "signed") funded

-- The service answers the third try.
abbrev third : ℕ → Option ℕ
third i = if i == 2 then some 200 else none

wait_for_ready_lem_example :
    (j : ℕ) × (j ≤ 2) × (wait_for_ready third 60 ≡ some j) × FirstReady third 0 j
unfolding is_ready
wait_for_ready_lem_example = wait_for_ready_lem third 60 2 (omega arith) refl

abbrev connect : Connect
connect = record {
  dial = λ url. ok tt;
  new_rpc = λ url path. ok tt;
  hd_path = λ coin account index. bytes "m";
  new_account = λ name mnemonic passphrase path. ok tt;
}

abbrev unset : Bytes → Bytes
unset name = []

abbrev started : Started
started = record {
  chain_ready = some 2;
  kvstore_ready = some 2;
  client = client;
  addr = bytes ":8080";
}

started_now : start chain (ok tt) connect unset (λ url. third) (λ i. []) ≡ ok started
unfolding start bytes_eq parse_uint new_kv_store_client new_chain_client resolve read_config
    resolve_contract_by_code_id wait_for_ready set_contract_addr parse_digits is_digit
started_now = refl

start_lem_example :
    Looked chain (λ i. []) (read_config unset).wasm_code_id started.client.contract_addr
start_lem_example =
    start_lem chain (ok tt) connect unset (λ url. third) (λ i. []) started started_now
