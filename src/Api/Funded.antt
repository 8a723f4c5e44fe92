-- ===== src/Api/Funded.antt =====
-- What the handlers of bounties have sent to the node when they answer.
use mathlib.Core.Path.{subst}
use mathlib.Core.Option.{some-injective}
use poc_cometbft.Prelude.{
  ℕ, [], ◌∷◌, ◌++◌, ◌≡◌, ◌≢◌, refl, sym, ap, none, some, Outcome, ok, err, panic, >>=-eq-ok,
  ok-injective,
}
use poc_cometbft.Bytes.Wrap.{wrap, wrap_ok}
use poc_cometbft.Bytes.{Bytes, bytes}
use poc_cometbft.Api.Respond.{Response, respond_json, respond_error}
use poc_cometbft.Api.ChainClient
use poc_cometbft.Api.ChainClient.{
  Chain, TxResponse, SdkMsg, execute, broadcast_made, broadcast_msg, get_signer_addr,
}
use poc_cometbft.Api.Contract
use poc_cometbft.Api.Contract.{Client, fund_msg, claim_msg, with_task_id}
use poc_cometbft.Api.Handlers.{Data, answer, answer_tx, tx_hash}
use poc_cometbft.Api.Bounties
use poc_cometbft.Api.Bounties.{FundBountyRequest}
use poc_cometbft.Api.Statuses.{Sent, broadcast_msg_lem}

-- A response with this status and data.
unfoldable pub Answered : ℕ → Data → Outcome Bytes (Response Data) → Type 0
Answered status given (ok response) = (response.status ≡ status) × (response.data_of ≡ some given)
Answered status given (err e) = ⊥
Answered status given panic = ⊥

module _ (c : Chain) (node : c.Node) where
  -- The node took the one message that was made, and the hash is the one that it gave.
  abbrev pub Took : SdkMsg c.Coins → Bytes → c.Node → Type 0
  Took msg hash node' =
      (resp : TxResponse) × Sent c node (msg ∷ []) resp node' × (resp.tx_hash ≡ hash)

  tx_hash_of_ok :
      (r : Outcome Bytes TxResponse × c.Node) (hash : Bytes)
      → (ChainClient.tx_hash_of c r).0 ≡ ok hash
      → (resp : TxResponse) × (r.0 ≡ ok resp)
        × (resp.tx_hash ≡ hash)
        × ((ChainClient.tx_hash_of c r).1 ≡ r.1)
  unfolding ChainClient.tx_hash_of
  tx_hash_of_ok (ok resp, node') hash h = (resp, refl, ok-injective h, refl)
  tx_hash_of_ok (err e, node') hash h = cc
  tx_hash_of_ok (panic, node') hash h = cc

  broadcast_made_ok :
      (made : Outcome Bytes (SdkMsg c.Coins)) (hash : Bytes)
      → (broadcast_made c node made).0 ≡ ok hash
      → (msg : SdkMsg c.Coins) × (made ≡ ok msg) × Took msg hash (broadcast_made c node made).1
  unfolding broadcast_made
  broadcast_made_ok (ok msg) hash h =
      let (resp, sent, same, after) = tx_hash_of_ok (broadcast_msg c node (msg ∷ [])) hash h in
      (
        msg,
        refl,
        (
          resp,
          subst (λ node'. Sent c node (msg ∷ []) resp node') (sym after)
              (broadcast_msg_lem c node (msg ∷ []) resp sent),
          same,
        ),
      )
  broadcast_made_ok (err e) hash h = cc
  broadcast_made_ok panic hash h = cc

  answer_tx-Answered :
      (status : ℕ) (result : Outcome Bytes Bytes × c.Node) (hash : Bytes)
      → Answered status (tx_hash hash) (answer_tx c status result).0
      → (result.0 ≡ ok hash) × ((answer_tx c status result).1 ≡ result.1)
  unfolding answer_tx answer Answered respond_json respond_error
  answer_tx-Answered status (ok given, node') hash h = (ap ok (same (some-injective _ _ h.1)), refl)
    where
      hash_in : Data → Bytes
      hash_in (Data.tx_hash text) = text
      hash_in _ = []

      same : tx_hash given ≡ tx_hash hash → given ≡ hash
      same e = ap hash_in e
  answer_tx-Answered status (err e, node') hash h = absurd (none_or_some h.1)
    where
      none_or_some : {d : Data} → none ≢ some d
      none_or_some e = cc
  answer_tx-Answered status (panic, node') hash h = absurd h

  answer_tx-Took :
      (status : ℕ) (made : Outcome Bytes (SdkMsg c.Coins)) (hash : Bytes)
      → Answered status (tx_hash hash) (answer_tx c status (broadcast_made c node made)).0
      → (msg : SdkMsg c.Coins) × (made ≡ ok msg)
        × Took msg hash (answer_tx c status (broadcast_made c node made)).1
  answer_tx-Took status made hash h =
      let (sent, after) = answer_tx-Answered status (broadcast_made c node made) hash h in
      let (msg, e, took) = broadcast_made_ok made hash sent in
      (msg, e, subst (λ node'. Took msg hash node') (sym after) took)

module _ (c : Chain) (client : Client) (node : c.Node) where
  -- The message that funds the bounty of a task, and the one that claims it.
  abbrev pub funding : Bytes → ℕ → c.Coins → SdkMsg c.Coins
  funding addr task_id coins = execute (record {
    sender = addr;
    contract = client.contract_addr;
    msg = with_task_id (bytes "fund_bounty") task_id;
    funds = some coins;
  })

  abbrev pub claiming : Bytes → ℕ → SdkMsg c.Coins
  claiming addr task_id = execute (record {
    sender = addr;
    contract = client.contract_addr;
    msg = with_task_id (bytes "claim_bounty") task_id;
    funds = none;
  })

  -- Where the handler that funds a bounty answers with status 201 and a hash, the amount and the
  -- denomination together are a coin, and the node took with code 0 the one message of the signer that
  -- calls `fund_bounty` of the client's contract for the task that the request names, with that coin,
  -- signed for the signer's account; the hash is the one that the node gave.
  pub fund_bounty_lem :
      (req : FundBountyRequest) (hash : Bytes)
      → Answered 201 (tx_hash hash) (Bounties.fund_bounty c client node (some req)).0
      → (addr : Bytes) × (coin : c.Coin) × (coins : c.Coins) × (get_signer_addr c ≡ ok addr)
        × (c.parse_coin (req.amount ++ req.denom) ≡ ok coin)
        × (c.new_coins coin ≡ ok coins)
        × Took c node
            (funding addr req.task_id coins)
            hash
            (Bounties.fund_bounty c client node (some req)).1
  unfolding Bounties.fund_bounty Contract.fund_bounty fund_msg
  fund_bounty_lem req hash h =
      let (msg, made, took) =
        answer_tx-Took c node 201 (fund_msg c client req.task_id req.amount req.denom) hash h in
      let (addr, signer, made1) = >>=-eq-ok (get_signer_addr c) _ made in
      let (coin, parsed, made2) =
        >>=-eq-ok (wrap (bytes "parse coin: ") (c.parse_coin (req.amount ++ req.denom))) _ made1 in
      let (coins, sorted, made3) = >>=-eq-ok (c.new_coins coin) _ made2 in
      (
        addr,
        coin,
        coins,
        signer,
        wrap_ok (bytes "parse coin: ") _ coin parsed,
        sorted,
        subst (λ m. Took c node m hash (Bounties.fund_bounty c client node (some req)).1)
            (sym (ok-injective made3)) took,
      )

  -- Where the handler that claims a bounty answers with status 200 and a hash, the node took with code
  -- 0 the one message of the signer that calls `claim_bounty` of the client's contract for the task that
  -- the request names, with no funds, signed for the signer's account; the hash is the one that the
  -- node gave.
  pub claim_bounty_lem :
      (task_id : ℕ) (hash : Bytes)
      → Answered 200 (tx_hash hash) (Bounties.claim_bounty c client node (some task_id)).0
      → (addr : Bytes) × (get_signer_addr c ≡ ok addr)
        × Took c node
            (claiming addr task_id)
            hash
            (Bounties.claim_bounty c client node (some task_id)).1
  unfolding Bounties.claim_bounty Contract.claim_bounty claim_msg
  claim_bounty_lem task_id hash h =
      let (msg, made, took) = answer_tx-Took c node 200 (claim_msg c client task_id) hash h in
      let (addr, signer, made1) = >>=-eq-ok (get_signer_addr c) _ made in
      (
        addr,
        signer,
        subst (λ m. Took c node m hash (Bounties.claim_bounty c client node (some task_id)).1)
            (sym (ok-injective made1)) took,
      )
