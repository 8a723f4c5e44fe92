-- ===== src/Api/Statuses.antt =====
-- What the backend's client sends, and what its handlers answer.
use poc_cometbft.Prelude.{
  ℕ, List, [], ◌≡◌, ◌≢◌, inl, inr, refl, sym, ap, Option, none, some, Outcome, ok, err, panic, ◌==◌,
  ==_iff, arith, Bool-cases, Option-cases, >>=-eq-ok,
}
use poc_cometbft.Bytes.Wrap.{wrap, wrap_ok}
use poc_cometbft.Bytes.{Bytes, bytes, bytes_eq}
use poc_cometbft.Api.Respond.{Response, respond_json, respond_error}
use poc_cometbft.Api.ChainClient
use poc_cometbft.Api.ChainClient.{SdkMsg, Chain, Broadcast, TxResponse, signed_bytes, broadcast_msg}
use poc_cometbft.Api.Handlers
use poc_cometbft.Api.Handlers.{path_id, CreateTaskRequest, Data, tx_hash}

module _ (c : Chain) (node : c.Node) where
  -- What the bytes that are sent come from: the signer's key and address, the account as the chain has
  -- it now, and the messages built with its number and sequence, signed and encoded.
  abbrev pub Signed : List (SdkMsg c.Coins) → Bytes → Type 0
  Signed msgs tx_bytes =
      (addr : Bytes) × (acc : ℕ × ℕ) × (tx : c.Tx) × (tx' : c.Tx) × (ChainClient.get_signer_addr c
        ≡ ok addr)
      × (ChainClient.get_account c node addr ≡ ok acc)
      × (c.build acc.0 acc.1 msgs ≡ ok tx)
      × (c.sign tx ≡ ok tx')
      × (c.encode tx' ≡ ok tx_bytes)

  pub signed_bytes_ok :
      (msgs : List (SdkMsg c.Coins)) (tx_bytes : Bytes)
      → signed_bytes c node msgs ≡ ok tx_bytes
      → Signed msgs tx_bytes
  unfolding signed_bytes
  signed_bytes_ok msgs tx_bytes h =
      let (addr, a, h1) =
        >>=-eq-ok (wrap (bytes "get signer: ") (ChainClient.get_signer_addr c)) _ h in
      let (acc, b, h2) =
        >>=-eq-ok (wrap (bytes "get account: ") (ChainClient.get_account c node addr)) _ h1 in
      let (tx, d, h3) = >>=-eq-ok (wrap (bytes "build tx: ") (c.build acc.0 acc.1 msgs)) _ h2 in
      let (tx', e, h4) = >>=-eq-ok (wrap (bytes "sign: ") (c.sign tx)) _ h3 in
      (
        addr,
        acc,
        tx,
        tx',
        wrap_ok (bytes "get signer: ") _ addr a,
        wrap_ok (bytes "get account: ") _ acc b,
        wrap_ok (bytes "build tx: ") _ tx d,
        wrap_ok (bytes "sign: ") _ tx' e,
        wrap_ok (bytes "encode tx: ") _ tx_bytes h4,
      )

  -- What the node answered to the bytes, and what the client makes of it.
  abbrev pub Sent : List (SdkMsg c.Coins) → TxResponse → c.Node → Type 0
  Sent msgs resp node' =
      (tx_bytes : Bytes) × (result : Broadcast) × Signed msgs tx_bytes
      × (c.broadcast_tx_sync node tx_bytes ≡ (ok result, node'))
      × (result.code ≡ 0)
      × (resp.tx_hash ≡ result.hash)

  pub sent_ok :
      (o : Outcome Bytes Broadcast) (resp : TxResponse)
      → ChainClient.sent c o ≡ ok resp
      → (result : Broadcast) × (o ≡ ok result) × (result.code ≡ 0) × (resp.tx_hash ≡ result.hash)
  unfolding ChainClient.sent
  sent_ok (ok result) resp h = elim (Bool-cases (result.code == 0)) [
    | inl zero_code ↦ (result, refl, (==_iff _ _).0 zero_code, sym (ap hash_of (rw zero_code at h)))
    | inr failed ↦ cc (rw failed at h)
  ]
    where
      hash_of : Outcome Bytes TxResponse → Bytes
      hash_of (ok r) = r.tx_hash
      hash_of (err e) = e
      hash_of panic = []
  sent_ok (err e) resp h = cc
  sent_ok panic resp h = cc

  send_ok :
      (msgs : List (SdkMsg c.Coins)) (o : Outcome Bytes Bytes) (resp : TxResponse)
      → ((tx_bytes : Bytes) → o ≡ ok tx_bytes → Signed msgs tx_bytes)
      → (ChainClient.send c node o).0 ≡ ok resp
      → Sent msgs resp (ChainClient.send c node o).1
  unfolding ChainClient.send
  send_ok msgs (ok tx_bytes) resp signed h =
      let (result, e, zero_code, same) = sent_ok _ resp h in
      (
        tx_bytes,
        result,
        signed tx_bytes refl,
        ap (λ o. (o, (c.broadcast_tx_sync node tx_bytes).1)) e,
        zero_code,
        same,
      )
  send_ok msgs (err e) resp signed h = cc
  send_ok msgs panic resp signed h = cc

  -- `broadcastMsg` succeeds only where it built, signed and encoded the messages for the signer's
  -- account as the chain has it, and the node took these bytes with code 0; it then returns the hash
  -- that the node gave.
  pub broadcast_msg_lem :
      (msgs : List (SdkMsg c.Coins)) (resp : TxResponse)
      → (broadcast_msg c node msgs).0 ≡ ok resp
      → Sent msgs resp (broadcast_msg c node msgs).1
  unfolding broadcast_msg
  broadcast_msg_lem msgs resp h =
      send_ok msgs _ resp (λ tx_bytes e. signed_bytes_ok msgs tx_bytes e) h

-- A response with status 400.
unfoldable pub BadRequest : {D : Type 0} → Outcome Bytes (Response D) → Type 0
BadRequest (ok response) = response.status ≡ 400
BadRequest (err e) = ⊥
BadRequest panic = ⊥

module _ (c : Chain) where
  answer_tx-BadRequest :
      (node : c.Node) (status : ℕ) (r : Outcome Bytes Bytes × c.Node)
      → status ≢ 400
      → BadRequest (Handlers.answer_tx c status r).0
      → (Handlers.answer_tx c status r).1 ≡ node
  unfolding Handlers.answer_tx Handlers.answer BadRequest respond_json respond_error
  answer_tx-BadRequest node status (ok hash, node') ne h = absurd (ne h)
  answer_tx-BadRequest node status (err e, node') ne h = absurd (omega (arith, h))
  answer_tx-BadRequest node status (panic, node') ne h = absurd h

  create-BadRequest :
      (node : c.Node) (body : Option CreateTaskRequest)
      → BadRequest (Handlers.create_task c node body).0
      → (Handlers.create_task c node body).1 ≡ node
  unfolding Handlers.create_task
  create-BadRequest node none h = refl
  create-BadRequest node (some req) h = elim (Bool-cases (bytes_eq req.title [])) [
    | inl empty ↦ rw empty refl
    | inr titled ↦
        rw titled (answer_tx-BadRequest node 201 _ (λ e. omega (arith, e)) (rw titled at h))
  ]

  complete-BadRequest :
      (node : c.Node) (id_str : Bytes)
      → BadRequest (Handlers.complete_task c node id_str).0
      → (Handlers.complete_task c node id_str).1 ≡ node
  unfolding Handlers.complete_task
  complete-BadRequest node id_str h = elim (Option-cases (path_id id_str)) [
    | inl no_number ↦ rw (no_number, Handlers.complete_task) refl
    | inr (id, e) ↦
        rw (e, Handlers.complete_task)
          (answer_tx-BadRequest node 200 _ (λ e. omega (arith, e))
            (rw (e, Handlers.complete_task) at h))
  ]

  assign-BadRequest :
      (node : c.Node) (id_str : Bytes) (body : Option Bytes)
      → BadRequest (Handlers.assign_task c node id_str body).0
      → (Handlers.assign_task c node id_str body).1 ≡ node
  unfolding Handlers.assign_task
  assign-BadRequest node id_str none h = elim (Option-cases (path_id id_str)) [
    | inl no_number ↦ rw (no_number, Handlers.assign_task) refl
    | inr (id, e) ↦ rw (e, Handlers.assign_task) refl
  ]
  assign-BadRequest node id_str (some assignee) h = elim (Option-cases (path_id id_str)) [
    | inl no_number ↦ rw (no_number, Handlers.assign_task) refl
    | inr (id, e) ↦
        rw (e, Handlers.assign_task)
          (answer_tx-BadRequest node 200 _ (λ e. omega (arith, e))
            (rw (e, Handlers.assign_task) at h))
  ]

  -- Where the handler that creates, assigns or completes a task answers with status 400, nothing was
  -- sent to the node.
  pub bad_request_lem :
      (node : c.Node) (id_str : Bytes)
      → ((body : Option CreateTaskRequest)
          → BadRequest (Handlers.create_task c node body).0
          → (Handlers.create_task c node body).1 ≡ node)
        × ((body : Option Bytes)
            → BadRequest (Handlers.assign_task c node id_str body).0
            → (Handlers.assign_task c node id_str body).1 ≡ node)
        × (BadRequest (Handlers.complete_task c node id_str).0
            → (Handlers.complete_task c node id_str).1 ≡ node)
  bad_request_lem node id_str =
      (create-BadRequest node, assign-BadRequest node id_str, complete-BadRequest node id_str)
