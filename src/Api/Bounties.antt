-- ===== src/Api/Bounties.antt =====
-- api-backend/handlers/bounties.go. Log lines are left out. A body is what
-- `json.NewDecoder(r.Body).Decode` makes of it, or none where it fails.
use poc_cometbft.Prelude.{ℕ, Option, none, some, Outcome, ok}
use poc_cometbft.Bytes.{Bytes, bytes}
use poc_cometbft.Api.Respond.{Response, respond_error}
use poc_cometbft.Api.ChainClient.{Chain}
use poc_cometbft.Api.Contract
use poc_cometbft.Api.Contract.{Client}
use poc_cometbft.Api.Handlers.{Data, path_id, answer, answer_tx}

pub record FundBountyRequest : Type 0 where
  pub task_id : ℕ
  pub amount : Bytes
  pub denom : Bytes

module _ (c : Chain) (client : Client) where
  unfoldable pub fund_bounty :
      c.Node → Option FundBountyRequest → Outcome Bytes (Response Data) × c.Node
  unfolding answer_tx
  fund_bounty node none = (ok (respond_error 400 (bytes "invalid request body")), node)
  fund_bounty node (some req) =
      answer_tx c 201 (Contract.fund_bounty c client node req.task_id req.amount req.denom)

  -- `body` is the task's id that the request names.
  unfoldable pub claim_bounty : c.Node → Option ℕ → Outcome Bytes (Response Data) × c.Node
  unfolding answer_tx
  claim_bounty node none = (ok (respond_error 400 (bytes "invalid request body")), node)
  claim_bounty node (some task_id) = answer_tx c 200 (Contract.claim_bounty c client node task_id)

  unfoldable pub get_bounty : c.Node → Bytes → Outcome Bytes (Response c.Json)
  unfolding answer
  get_bounty node id_str = elim (path_id id_str) [
    | none ↦ ok (respond_error 400 (bytes "invalid bounty id"))
    | some id ↦ answer 200 (λ bounty. bounty) (Contract.get_bounty c client node id)
  ]

  unfoldable pub list_bounties : c.Node → Outcome Bytes (Response c.Json)
  unfolding answer
  list_bounties node = answer 200 (λ bounties. bounties) (Contract.list_bounties c client node)

  unfoldable pub get_config : c.Node → Outcome Bytes (Response c.Json)
  unfolding answer
  get_config node = answer 200 (λ config. config) (Contract.get_contract_config c client node)
