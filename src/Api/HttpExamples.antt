-- ===== src/Api/HttpExamples.antt =====
-- Requests to a backend whose router takes the first route that fits.
use poc_cometbft.Prelude.{◌≡◌, [], none, some, err}
use poc_cometbft.Bytes.{bytes}
use poc_cometbft.Taskreg.Empty.{start}
use poc_cometbft.Taskreg.Memory.{store, codec}
use poc_cometbft.Taskreg.Types.{MsgCreateTask}
use poc_cometbft.Api.ChainClient.{Chain}
use poc_cometbft.Api.Contract.{Client}
use poc_cometbft.Api.KvClient.{Rpc}
use poc_cometbft.Api.Routes
use poc_cometbft.Api.Routes.{Route, Fits, routes, static}
use poc_cometbft.Api.RegistryChain.{RegistryNode, registry_chain, idle}
use poc_cometbft.Api.Memory.{tx_codec, checks}
use poc_cometbft.Api.Server.{Decoders, serve_http}
use poc_cometbft.Api.Reference.{read_task, path_of, answered, serve_http-answered}
use poc_cometbft.Api.FirstFit.{first_fit, first_fit-laws}

abbrev chain : Chain
chain = registry_chain store codec tx_codec checks (bytes "alice")

-- A key-value node that is down.
abbrev down : Rpc
down = record {
  Node = Unit;
  broadcast_tx_commit = λ node tx. (err [], node);
  abci_query = λ node path. err [];
  status = λ node. err [];
}

abbrev client : Client
client = record { chain_id = bytes "mychain-1"; key_name = bytes "backend"; contract_addr = [] }

-- A body is the title, the assignee or the value.
abbrev decode : Decoders
decode = record {
  create = λ body. some (record { title = body; description = [] });
  assignee = λ body. some body;
  fund = λ body. none;
  task_id = λ body. none;
  value = λ body. some body;
}

abbrev node : RegistryNode store checks
node = idle store codec tx_codec checks (bytes "alice") start 0

abbrev painting : MsgCreateTask
painting = record { creator = bytes "alice"; title = bytes "paint"; description = [] }

serve_http-answered_example :
    serve_http chain down
      (λ b. b)
      client
      decode
      first_fit
      (record { method = Routes.get; path = path_of (read_task (bytes "x")); body = [] })
      (node, tt)
    ≡ answered chain down (λ b. b) client decode (read_task (bytes "x")) [] (node, tt)
serve_http-answered_example =
    serve_http-answered chain down (λ b. b) client decode first_fit first_fit-laws
      (read_task (bytes "x")) [] (node, tt) (λ e. cc)
