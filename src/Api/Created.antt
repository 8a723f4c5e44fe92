-- ===== src/Api/Created.antt =====
-- A task that is created through the backend, on a chain that runs the registry, and read through it.
use poc_cometbft.Prelude.{
  ℕ, ◌≡◌, ◌≢◌, refl, ap, ◌∙◌, [], none, some, ok, ==_iff, inl, inr, Bool-cases, false,
}
use poc_cometbft.Bytes.{Bytes, bytes_eq, bytes_eq_iff}
use poc_cometbft.Bytes.BigEndian.{IsU64}
use poc_cometbft.Bytes.Text.{decimal}
use poc_cometbft.Bytes.Printed.{decimal-IsUint}
use poc_cometbft.Taskreg.Types.{Task, MsgCreateTask, validate_create}
use poc_cometbft.Taskreg.Store.{KvStoreService, StoreLaws, Codec, CodecLaws}
use poc_cometbft.Taskreg.MsgServer.{Context, new_task}
use poc_cometbft.Taskreg.Query
use poc_cometbft.Taskreg.Registry.{Registry, IsRegistry, IsCreate}
use poc_cometbft.Taskreg.Registry
use poc_cometbft.Taskreg.Refines.{Abstracts}
use poc_cometbft.Taskreg.History.{Msg, apply}
use poc_cometbft.Taskreg.Valid.{validate}
use poc_cometbft.Api.Respond.{respond_json}
use poc_cometbft.Api.ChainClient
use poc_cometbft.Api.ChainClient.{Chain}
use poc_cometbft.Api.Handlers
use poc_cometbft.Api.Handlers.{Data, tx_hash, task, CreateTaskRequest}
use poc_cometbft.Api.Paths.{path_id_iff}
use poc_cometbft.Api.RegistryChain.{
  Checks, RegistryNode, TxCodec, TxLaws, registry_chain, invalid, checked_on, check, next_block,
  idle, tx_of, returned, broadcast_made-returned, executed,
}

bytes_eq-false : (a b : Bytes) → a ≢ b → bytes_eq a b ≡ false
bytes_eq-false a b ne = elim (Bool-cases (bytes_eq a b)) [
  | inl same ↦ absurd (ne ((bytes_eq_iff a b).0 same))
  | inr other ↦ other
]

module _ (s : KvStoreService) (sl : StoreLaws s) (cdc : Codec) (cl : CodecLaws cdc) (x : TxCodec)
    (xl : TxLaws x) (k : Checks) (signer : Bytes) where
  abbrev chain_here : Chain
  chain_here = registry_chain s cdc x k signer

  -- The message of `CreateTask`.
  abbrev pub creating : Bytes → Bytes → MsgCreateTask
  creating title description = record { creator = signer; title = title; description = description }

  abbrev pub creation : k.Accounts → Bytes → Bytes → Bytes
  creation accounts title description =
      tx_of s cdc x k signer accounts (Msg.create (creating title description))

  creation_valid :
      (title description : Bytes)
      → title ≢ []
      → k.parse_address signer ≡ none
      → validate k.parse_address k.title_refusal (Msg.create (creating title description)) ≡ ok tt
  unfolding validate validate_create
  creation_valid title description titled signed = rw (signed, bytes_eq-false title [] titled) refl

  -- Its transaction passes `ValidateBasic`, and the ante handler leaves these accounts.
  check-creation :
      (accounts accounts' : k.Accounts) (title description : Bytes)
      → title ≢ []
      → k.parse_address signer ≡ none
      → k.ante accounts (creation accounts title description) ≡ inr accounts'
      → check s cdc x k signer accounts (creation accounts title description) ≡ inr accounts'
  unfolding check checked_on
  check-creation accounts accounts' title description titled signed passes =
      rw (xl.decode-encode, creation_valid title description titled signed, invalid) passes

  create_returned :
      (context : Context s) (accounts accounts' : k.Accounts) (title description : Bytes)
      → title ≢ []
      → check s cdc x k signer accounts (creation accounts title description) ≡ inr accounts'
      → Handlers.create_task chain_here
          (idle s cdc x k signer context accounts)
          (some (record { title = title; description = description }))
        ≡ Handlers.answer_tx chain_here 201 (
            returned s cdc x k signer context accounts
              (Msg.create (creating title description))
              (inr accounts'))
  unfolding Handlers.create_task ChainClient.create_task
  create_returned context accounts accounts' title description titled checked =
      rw (bytes_eq-false title [] titled) (
        ap (Handlers.answer_tx chain_here 201) (
          broadcast_made-returned s sl cdc cl x xl k signer context accounts
            (Msg.create (creating title description)) (inr accounts') checked))

  created_found :
      (r : Registry) (msg : MsgCreateTask)
      → (apply r (Msg.create msg)).tasks r.next ≡ some (new_task r.next msg)
  unfolding apply Registry.create
  created_found r msg = rw ((==_iff r.next r.next).1 refl) refl

  read_found :
      (node : RegistryNode s k) (r : Registry) (id : ℕ) (t : Task)
      → Abstracts s cdc node.context.store r
      → IsU64 id
      → r.tasks id ≡ some t
      → Handlers.get_task chain_here node (decimal id) ≡ ok (respond_json 200 (task t))
  unfolding Handlers.get_task Handlers.answer ChainClient.get_task Query.query_task
  read_found node r id t a hid found =
      rw
        (
          (path_id_iff (decimal id) id).1 (decimal-IsUint id hid),
          Handlers.get_task,
          a.tasks_at id hid,
          found,
        )
        refl

  -- On a chain that runs the registry, with no transaction taken since its last block and a well-formed
  -- registry stored, whose ante handler takes the transaction: the handler that creates a task, for a
  -- signer that is an address, given a title that is not empty and texts of lengths that Go can give
  -- them, answers with status 201 and the transaction's hash; and after the next block, the handler that
  -- reads a task, given the decimal text of the id that was next, answers with status 200 and the task,
  -- open, with this title and description and the signer as its creator.
  pub create-get_task :
      (context : Context s) (accounts accounts' : k.Accounts) (r : Registry)
      (title description : Bytes)
      → Abstracts s cdc context.store r
      → IsRegistry r
      → IsCreate (creating title description)
      → title ≢ []
      → k.parse_address signer ≡ none
      → k.ante accounts (creation accounts title description) ≡ inr accounts'
      → ((Handlers.create_task chain_here
            (idle s cdc x k signer context accounts)
            (some (record { title = title; description = description }))).0
          ≡ ok (respond_json 201 (tx_hash (x.hash_of (creation accounts title description)))))
        × (Handlers.get_task chain_here
              (next_block s cdc x k signer
                (Handlers.create_task chain_here
                  (idle s cdc x k signer context accounts)
                  (some (record { title = title; description = description }))).1)
              (decimal r.next)
            ≡ ok (respond_json 200 (task (new_task r.next (creating title description)))))
  unfolding Handlers.answer_tx Handlers.answer
  create-get_task context accounts accounts' r title description a v h titled signed passes =
      let msg = Msg.create (creating title description) in
      let checked = check-creation accounts accounts' title description titled signed passes in
      let taken = create_returned context accounts accounts' title description titled checked in
      (
        ap (λ p. p.0) taken,
        ap (λ p. Handlers.get_task chain_here (next_block s cdc x k signer p.1) (decimal r.next))
              taken
            ∙ read_found _ (apply r msg) r.next _
                (executed s sl cdc cl x xl k signer context accounts r msg (inr accounts') checked a
                  v h)
                v.next_range (created_found r (creating title description)),
      )
