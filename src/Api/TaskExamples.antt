-- ===== src/Api/TaskExamples.antt =====
-- Assigning and completing through the backend, on a chain without tasks.
use poc_cometbft.Prelude.{◌≡◌, refl, arith, [], ◌++◌, some, ok}
use poc_cometbft.Bytes.{bytes}
use poc_cometbft.Bytes.Text.{decimal}
use poc_cometbft.Taskreg.Empty.{start}
use poc_cometbft.Taskreg.Memory.{store, store-laws, codec, codec-laws}
use poc_cometbft.Api.ChainClient.{Chain}
use poc_cometbft.Api.Respond.{respond_error}
use poc_cometbft.Api.Handlers
use poc_cometbft.Api.RegistryChain.{RegistryNode, registry_chain, idle}
use poc_cometbft.Api.Posted.{assignee_refused}
use poc_cometbft.Api.Memory.{tx_codec, tx_laws, checks}

abbrev chain : Chain
chain = registry_chain store codec tx_codec checks (bytes "alice")

abbrev node : RegistryNode store checks
node = idle store codec tx_codec checks (bytes "alice") start 0

assignee_refused_example : Handlers.assign_task chain node (decimal 3) (some []) ≡ (
  ok (
      respond_error 500
        (bytes "tx failed (code " ++ (decimal 7 ++ (bytes "): " ++ bytes "empty address string")))),
  node,
)
assignee_refused_example =
    assignee_refused store store-laws codec codec-laws tx_codec tx_laws checks (bytes "alice") start
      0 3 [] _ (omega arith) refl refl
