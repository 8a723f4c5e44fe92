-- ===== src/Api/Start.antt =====
-- api-backend/main.go: the configuration, the two waits, the look for the contract, and the start as a
-- whole. Log lines are left out.
use poc_cometbft.Prelude.{
  must, ℕ, Bool, false, zero, suc, [], ◌++◌, Option, none, some, Outcome, ok, err, panic, ◌>>=◌,
  if◌then◌else◌, ◌==◌, ltb,
}
use poc_cometbft.Bytes.Wrap.{wrap}
use poc_cometbft.Bytes.{Bytes, bytes, bytes_eq}
use poc_cometbft.Bytes.ParseUint.{parse_uint}
use poc_cometbft.Api.KvClient.{new_kv_store_client}
use poc_cometbft.Api.ChainClient.{Chain}
use poc_cometbft.Api.Contract.{
  Client, Connect, new_chain_client, set_contract_addr, resolve_contract_by_code_id,
}

-- `getenv` is `os.Getenv`, which returns the empty string for a variable that is not set.
unfoldable pub env_or_default : (Bytes → Bytes) → Bytes → Bytes → Bytes
env_or_default getenv key default = if bytes_eq (getenv key) [] then default else getenv key

pub record Config : Type 0 where
  pub chain_grpc : Bytes
  pub chain_rpc : Bytes
  pub kvstore_rpc : Bytes
  pub chain_id : Bytes
  pub mnemonic : Bytes
  pub wasm_code_id : ℕ
  pub port : Bytes

-- The error of `ParseUint` is dropped.
unfoldable pub read_config : (Bytes → Bytes) → Config
unfolding env_or_default
read_config getenv = record {
  chain_grpc = env_or_default getenv (bytes "CHAIN_GRPC_ADDR") (bytes "localhost:9090");
  chain_rpc = env_or_default getenv (bytes "CHAIN_RPC_ADDR") (bytes "http://localhost:26657");
  kvstore_rpc = env_or_default getenv (bytes "KVSTORE_RPC_ADDR") (bytes "http://localhost:36657");
  chain_id = env_or_default getenv (bytes "CHAIN_ID") (bytes "mychain-1");
  mnemonic = env_or_default getenv (bytes "TEST_MNEMONIC") [];
  wasm_code_id = (parse_uint (env_or_default getenv (bytes "WASM_CODE_ID") (bytes "1"))).0;
  port = env_or_default getenv (bytes "PORT") (bytes "8080");
}

-- Whether `http.Get` returned a response, and its status is 200; none is an error.
unfoldable pub is_ready : Option ℕ → Bool
is_ready (some status) = status == 200
is_ready none = false

-- `answer_at i` is the status that the try `i` returns. The result is the try that found the service
-- ready, or none where the warning is logged.
unfoldable pub wait_loop : (ℕ → Option ℕ) → (tries i : ℕ) → Option ℕ
unfolding is_ready
wait_loop answer_at zero i = none
wait_loop answer_at (suc tries) i =
    let later = wait_loop answer_at tries (suc i) in
    if is_ready (answer_at i) then some i else later

unfoldable pub wait_for_ready : (ℕ → Option ℕ) → ℕ → Option ℕ
unfolding wait_loop
wait_for_ready answer_at max_retries = wait_loop answer_at max_retries 0

-- What runs when the server starts to listen.
pub record Started : Type 0 where
  pub chain_ready : Option ℕ
  pub kvstore_ready : Option ℕ
  pub client : Client
  pub addr : Bytes

module _ (c : Chain) where
  -- `node_at i` is the chain at the try `i`.
  unfoldable pub resolve_loop : (ℕ → c.Node) → ℕ → (tries i : ℕ) → Client → Outcome Bytes Client
  resolve_loop node_at code_id zero i client = ok client
  resolve_loop node_at code_id (suc tries) i client =
      let later = resolve_loop node_at code_id tries (suc i) client in
      elim (resolve_contract_by_code_id c (node_at i) code_id) [
        | ok addr ↦ ok (set_contract_addr client addr)
        | err e ↦ later
        | panic ↦ panic
      ]

  unfoldable pub resolve : (ℕ → c.Node) → ℕ → Client → Outcome Bytes Client
  unfolding resolve_loop
  resolve node_at code_id client =
      if ltb 0 code_id then resolve_loop node_at code_id 5 0 client else ok client

  -- `get_at url i` is the status at the try `i` of `url`; `encoding` is `MakeEncodingConfig` of mychain/app,
  -- which returns or panics. An error is one that `log.Fatalf` ends with.
  unfoldable pub start :
      Outcome Bytes (Unit {0})
      → Connect
      → (Bytes → Bytes)
      → (Bytes → ℕ → Option ℕ)
      → (ℕ → c.Node)
      → Outcome Bytes Started
  start encoding connect getenv get_at node_at =
      let config = read_config getenv in
      do
        _ ← must encoding
        client ← wrap (bytes "Failed to create chain client: ") (
            new_chain_client connect config.chain_grpc config.chain_rpc config.chain_id
              config.mnemonic)
        resolved ← resolve node_at config.wasm_code_id client
        _ ←
            wrap (bytes "Failed to create kvstore client: ")
              (new_kv_store_client connect.new_rpc config.kvstore_rpc)
        ok (record {
          chain_ready = wait_for_ready (get_at (config.chain_rpc ++ bytes "/status")) 60;
          kvstore_ready = wait_for_ready (get_at (config.kvstore_rpc ++ bytes "/status")) 60;
          client = resolved;
          addr = bytes ":" ++ config.port;
        })
