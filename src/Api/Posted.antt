-- ===== src/Api/Posted.antt =====
-- Assigning and completing tasks through the backend, on a chain that runs the registry: what is
-- answered, and what the next block does.
use poc_cometbft.Prelude.{
  ℕ, ◌≡◌, refl, ap, ◌∙◌, [], ◌∷◌, ◌++◌, none, some, Outcome, ok, err, ◌⊎◌, inl, inr,
}
use poc_cometbft.Bytes.{Bytes, bytes}
use poc_cometbft.Bytes.BigEndian.{IsU64}
use poc_cometbft.Bytes.Text.{decimal}
use poc_cometbft.Bytes.Printed.{decimal-IsUint}
use poc_cometbft.Taskreg.Types.{MsgAssignTask, MsgCompleteTask, validate_assign}
use poc_cometbft.Taskreg.Store.{KvStoreService, StoreLaws, Codec, CodecLaws}
use poc_cometbft.Taskreg.MsgServer.{Context}
use poc_cometbft.Taskreg.Registry.{Registry}
use poc_cometbft.Taskreg.Refines.{Abstracts}
use poc_cometbft.Taskreg.History.{Msg}
use poc_cometbft.Taskreg.Valid.{validate}
use poc_cometbft.Api.Respond.{Response, respond_json, respond_error}
use poc_cometbft.Api.ChainClient
use poc_cometbft.Api.ChainClient.{Chain}
use poc_cometbft.Api.Handlers
use poc_cometbft.Api.Handlers.{Data, tx_hash, path_id}
use poc_cometbft.Api.Paths.{path_id_iff}
use poc_cometbft.Api.RegistryChain.{
  Refusal, Checks, invalid, checked_on, RegistryNode, TxCodec, TxLaws, registry_chain, check,
  next_block, idle, tx_of, returned, after, broadcast_made-returned,
}

module _ (s : KvStoreService) (cdc : Codec) (x : TxCodec) (k : Checks) (signer : Bytes) where
  abbrev pub assigning : ℕ → Bytes → MsgAssignTask
  assigning id assignee = record { creator = signer; task_id = id; assignee = assignee }

  abbrev pub completing : ℕ → MsgCompleteTask
  completing id = record { assignee = signer; task_id = id }

  -- What the check of a message's transaction on the accounts behind the last block says.
  abbrev pub checked : k.Accounts → Msg → Refusal ⊎ k.Accounts
  checked accounts msg = check s cdc x k signer accounts (tx_of s cdc x k signer accounts msg)

  -- Status 200 and the transaction's hash, with the transaction pending, where the check lets it through;
  -- status 500 and the code and text of the error, with the node as it was, where it does not.
  abbrev pub answered :
      Context s
      → k.Accounts
      → Msg
      → Refusal ⊎ k.Accounts
      → Outcome Bytes (Response Data) × RegistryNode s k
  answered context accounts msg (inl refusal) = (
    ok (
        respond_error 500
          (bytes "tx failed (code " ++ (decimal refusal.code ++ (bytes "): " ++ refusal.log)))),
    idle s cdc x k signer context accounts,
  )
  answered context accounts msg (inr accounts') = (
    ok (respond_json 200 (tx_hash (x.hash_of (tx_of s cdc x k signer accounts msg)))),
    record {
      context = context;
      accounts = accounts;
      checked = accounts';
      pending = tx_of s cdc x k signer accounts msg ∷ [];
    },
  )

module _ (s : KvStoreService) (sl : StoreLaws s) (cdc : Codec) (cl : CodecLaws cdc) (x : TxCodec)
    (xl : TxLaws x) (k : Checks) (signer : Bytes) where
  abbrev chain_here : Chain
  chain_here = registry_chain s cdc x k signer

  answer_tx-returned :
      (context : Context s) (accounts : k.Accounts) (msg : Msg) (o : Refusal ⊎ k.Accounts)
      → Handlers.answer_tx chain_here 200 (returned s cdc x k signer context accounts msg o)
        ≡ answered s cdc x k signer context accounts msg o
  unfolding Handlers.answer_tx Handlers.answer
  answer_tx-returned context accounts msg (inl refusal) = refl
  answer_tx-returned context accounts msg (inr accounts') = refl

  -- The answer to a message that the client broadcasts.
  answer-broadcast :
      (context : Context s) (accounts : k.Accounts) (msg : Msg)
      → Handlers.answer_tx chain_here 200 (
          ChainClient.broadcast_made chain_here
            (idle s cdc x k signer context accounts)
            (ok (ChainClient.registry msg)))
        ≡ answered s cdc x k signer context accounts msg (checked s cdc x k signer accounts msg)
  answer-broadcast context accounts msg =
      ap (Handlers.answer_tx chain_here 200)
        (broadcast_made-returned s sl cdc cl x xl k signer context accounts msg _ refl)
      ∙ answer_tx-returned context accounts msg (checked s cdc x k signer accounts msg)

  -- The answer to a message, and the registry behind the next block.
  abbrev pub AsChecked :
      Context s
      → k.Accounts
      → Registry
      → Msg
      → Outcome Bytes (Response Data) × RegistryNode s k
      → Type 0
  AsChecked context accounts r msg answer =
      (answer
        ≡ answered s cdc x k signer context accounts msg (checked s cdc x k signer accounts msg))
      × Abstracts s cdc (next_block s cdc x k signer answer.1).context.store
          (after s cdc x k signer r msg (checked s cdc x k signer accounts msg))

  assign_invalid :
      (id : ℕ) (assignee : Bytes) (refusal : Refusal)
      → k.parse_address signer ≡ none
      → k.parse_address assignee ≡ some refusal
      → validate k.parse_address k.title_refusal
          (Msg.assign (assigning s cdc x k signer id assignee))
        ≡ err refusal
  unfolding validate validate_assign
  assign_invalid id assignee refusal signed unknown = rw (signed, unknown) refl

  -- Where the signer is an address and the assignee is none, whatever the ante handler does: the handler
  -- that assigns a task of an id of 64 bits answers with status 500 and the code and the text of the
  -- parser's error, and the node is left alone.
  pub assignee_refused :
      (context : Context s) (accounts : k.Accounts) (id : ℕ) (assignee : Bytes) (refusal : Refusal)
      → IsU64 id
      → k.parse_address signer ≡ none
      → k.parse_address assignee ≡ some refusal
      → Handlers.assign_task chain_here
          (idle s cdc x k signer context accounts)
          (decimal id)
          (some assignee)
        ≡ (
          ok (
              respond_error 500 (
                bytes "tx failed (code "
                ++ (decimal refusal.code ++ (bytes "): " ++ refusal.log)))),
          idle s cdc x k signer context accounts,
        )
  unfolding Handlers.assign_task ChainClient.assign_task check checked_on
  assignee_refused context accounts id assignee refusal u signed unknown =
      let msg = Msg.assign (assigning s cdc x k signer id assignee) in
      let bad : validate k.parse_address k.title_refusal msg ≡ err refusal =
        assign_invalid id assignee refusal signed unknown in
      let refused : checked s cdc x k signer accounts msg ≡ inl refusal =
        rw (xl.decode-encode, bad, invalid) refl in
      rw ((path_id_iff (decimal id) id).1 (decimal-IsUint id u), Handlers.assign_task)
        (answer-broadcast context accounts msg
          ∙ ap (answered s cdc x k signer context accounts msg) refused)
