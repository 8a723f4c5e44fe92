-- ===== src/Api/Contract.antt =====
-- api-backend/client/chain.go: the client's own fields, and its operations on the bounty contract. Log
-- lines are left out. An error is its text.
use poc_cometbft.Prelude.{ℕ, List, [], ◌∷◌, ◌++◌, none, some, Outcome, ok, err, ◌>>=◌}
use poc_cometbft.Bytes.Wrap.{wrap}
use poc_cometbft.Bytes.{Bytes, bytes}
use poc_cometbft.Bytes.Text.{decimal}
use poc_cometbft.Api.ChainClient.{Chain, SdkMsg, execute, get_signer_addr, broadcast_made}

-- The fields of `ChainClient` that are neither connections nor codecs.
pub record Client : Type 0 where
  pub chain_id : Bytes
  pub key_name : Bytes
  pub contract_addr : Bytes

-- What `NewChainClient` calls: `grpc.Dial`, `rpchttp.New`, `hd.CreateHDPath` as a string, and the
-- keyring's `NewAccount` with a name, a mnemonic, a passphrase and a path.
pub record Connect : Type 0 where
  pub dial : Bytes → Outcome Bytes (Unit {0})
  pub new_rpc : Bytes → Bytes → Outcome Bytes (Unit {0})
  pub hd_path : ℕ → ℕ → ℕ → Bytes
  pub new_account : Bytes → Bytes → Bytes → Bytes → Outcome Bytes (Unit {0})

unfoldable pub new_chain_client :
    Connect → (grpc_addr rpc_addr chain_id mnemonic : Bytes) → Outcome Bytes Client
new_chain_client connect grpc_addr rpc_addr chain_id mnemonic = do
  _ ← wrap (bytes "grpc dial: ") (connect.dial grpc_addr)
  _ ← wrap (bytes "rpc client: ") (connect.new_rpc rpc_addr (bytes "/websocket"))
  _ ←
      wrap (bytes "import key: ")
        (connect.new_account (bytes "admin") mnemonic [] (connect.hd_path 118 0 0))
  ok (record { chain_id = chain_id; key_name = bytes "admin"; contract_addr = [] })

unfoldable pub set_contract_addr : Client → Bytes → Client
set_contract_addr client addr = record client { contract_addr = addr }

-- What `json.Marshal` makes of a map with one key, the value of which is a map with an id or none.
unfoldable pub with_task_id : Bytes → ℕ → Bytes
with_task_id name task_id =
    bytes "{\"" ++ (name ++ (bytes "\":{\"task_id\":" ++ (decimal task_id ++ bytes "}}")))

unfoldable pub without_fields : Bytes → Bytes
without_fields name = bytes "{\"" ++ (name ++ bytes "\":{}}")

module _ (c : Chain) (client : Client) where
  unfoldable pub fund_msg : ℕ → Bytes → Bytes → Outcome Bytes (SdkMsg c.Coins)
  fund_msg task_id amount denom = do
    addr ← get_signer_addr c
    coin ← wrap (bytes "parse coin: ") (c.parse_coin (amount ++ denom))
    coins ← c.new_coins coin
    ok (
        execute (record {
          sender = addr;
          contract = client.contract_addr;
          msg = with_task_id (bytes "fund_bounty") task_id;
          funds = some coins;
        }))

  unfoldable pub fund_bounty : c.Node → ℕ → Bytes → Bytes → Outcome Bytes Bytes × c.Node
  unfolding fund_msg
  fund_bounty node task_id amount denom = broadcast_made c node (fund_msg task_id amount denom)

  unfoldable pub claim_msg : ℕ → Outcome Bytes (SdkMsg c.Coins)
  claim_msg task_id = do
    addr ← get_signer_addr c
    ok (
        execute (record {
          sender = addr;
          contract = client.contract_addr;
          msg = with_task_id (bytes "claim_bounty") task_id;
          funds = none;
        }))

  unfoldable pub claim_bounty : c.Node → ℕ → Outcome Bytes Bytes × c.Node
  unfolding claim_msg
  claim_bounty node task_id = broadcast_made c node (claim_msg task_id)

  unfoldable pub query_contract : c.Node → Bytes → Outcome Bytes c.Json
  query_contract node query = do
    answer ← c.smart_contract_state node client.contract_addr query
    c.unmarshal_json answer

  unfoldable pub get_bounty : c.Node → ℕ → Outcome Bytes c.Json
  unfolding query_contract
  get_bounty node task_id = query_contract node (with_task_id (bytes "bounty") task_id)

  unfoldable pub list_bounties : c.Node → Outcome Bytes c.Json
  unfolding query_contract
  list_bounties node = query_contract node (without_fields (bytes "list_bounties"))

  unfoldable pub get_contract_config : c.Node → Outcome Bytes c.Json
  unfolding query_contract
  get_contract_config node = query_contract node (without_fields (bytes "config"))

module _ (c : Chain) where
  unfoldable pub first_contract : ℕ → List Bytes → Outcome Bytes Bytes
  first_contract code_id [] = err (bytes "no contracts found for code ID " ++ decimal code_id)
  first_contract code_id (addr ∷ contracts) = ok addr

  unfoldable pub resolve_contract_by_code_id : c.Node → ℕ → Outcome Bytes Bytes
  unfolding first_contract
  resolve_contract_by_code_id node code_id = do
    contracts ← wrap (bytes "query contracts by code: ") (c.contracts_by_code node code_id)
    first_contract code_id contracts
