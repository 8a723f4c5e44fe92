-- ===== src/Api/Sequences.antt =====
-- The sequences of the transactions that the client of api-backend/client/chain.go sends between blocks.
-- Its mutex makes each `broadcastMsg` one step; the steps stand in the order in which they get it.
use poc_cometbft.Prelude.{
  ℕ, suc, ◌+◌, ◌≤◌, ◌≡◌, ◌≢◌, refl, ◌∙◌, List, [], ◌∷◌, Outcome, ok, err, panic, inl, inr, ◌⊎◌, ltb,
  if◌then◌else◌, arith,
}
use poc_cometbft.Bytes.{Bytes}
use poc_cometbft.Api.ChainClient
use poc_cometbft.Api.ChainClient.{
  SdkMsg, Chain, Broadcast, TxResponse, signed_bytes, broadcast_msg, send, sent,
}
use poc_cometbft.Api.Statuses.{signed_bytes_ok, sent_ok}

-- The signer's sequence in the state of the last block and in the state on which the node checks
-- transactions, and the sequence that a transaction is signed with. The auth query reads the former; the
-- node takes a transaction only with the latter, which it then counts up, and no transaction changes the
-- state of the last block.
pub record Sequences (c : Chain) : Type 0 where
  pub committed : c.Node → ℕ
  pub checked : c.Node → ℕ
  pub sequence_of : Bytes → ℕ
  pub reads :
      (node : c.Node) (addr : Bytes) (acc : ℕ × ℕ)
      → ChainClient.get_account c node addr ≡ ok acc
      → acc.1 ≡ committed node
  pub signs :
      (number sequence : ℕ) (msgs : List (SdkMsg c.Coins)) (tx tx' : c.Tx) (tx_bytes : Bytes)
      → c.build number sequence msgs ≡ ok tx
      → c.sign tx ≡ ok tx'
      → c.encode tx' ≡ ok tx_bytes
      → sequence_of tx_bytes ≡ sequence
  pub keeps :
      (node : c.Node) (tx_bytes : Bytes)
      → (committed (c.broadcast_tx_sync node tx_bytes).1 ≡ committed node)
        × (checked node ≤ checked (c.broadcast_tx_sync node tx_bytes).1)
  pub takes :
      (node : c.Node) (tx_bytes : Bytes) (result : Broadcast)
      → (c.broadcast_tx_sync node tx_bytes).0 ≡ ok result
      → result.code ≡ 0
      → (sequence_of tx_bytes ≡ checked node)
        × (checked (c.broadcast_tx_sync node tx_bytes).1 ≡ suc (checked node))

-- A call of `broadcastMsg`, or a block, which leaves the node in any state.
pub data Event (c : Chain) : Type 0 where
  sends : List (SdkMsg c.Coins) → Event c
  block : c.Node → Event c

module _ (c : Chain) where
  abbrev pub counted : Outcome Bytes TxResponse → ℕ
  counted (ok resp) = 1
  counted (err e) = 0
  counted panic = 0

  -- How many of the calls return a response.
  unfoldable pub taken : c.Node → List (Event c) → ℕ
  taken node [] = 0
  taken node (sends msgs ∷ events) =
      counted (broadcast_msg c node msgs).0 + taken (broadcast_msg c node msgs).1 events
  taken node (block node' ∷ events) = taken node' events

  unfoldable pub blocks : List (Event c) → ℕ
  blocks [] = 0
  blocks (sends msgs ∷ events) = blocks events
  blocks (block node' ∷ events) = suc (blocks events)

module _ (c : Chain) (q : Sequences c) where
  -- How many calls can succeed before the next block.
  abbrev room : c.Node → ℕ
  room node = if ltb (q.committed node) (q.checked node) then 0 else 1

  -- A call leaves no more room than there was, less itself.
  abbrev Uses : c.Node → Outcome Bytes TxResponse × c.Node → Type 0
  Uses node r = counted c r.0 + room r.1 ≤ room node

  room-antitone :
      (node node' : c.Node)
      → q.committed node' ≡ q.committed node
      → q.checked node ≤ q.checked node'
      → room node' ≤ room node
  room-antitone node node' e h = rw e (ground (arith, h))

  -- What the node's answer comes to, for bytes that are signed with the sequence of the last block.
  answered-Uses :
      (node : c.Node) (tx_bytes : Bytes) (o : Outcome Bytes Broadcast)
      → q.sequence_of tx_bytes ≡ q.committed node
      → (c.broadcast_tx_sync node tx_bytes).0 ≡ o
      → Uses node (sent c o, (c.broadcast_tx_sync node tx_bytes).1)
  answered-Uses node tx_bytes o s e = elim (ok_or_not (sent c o)) [
    | inr refused ↦
        let (same, more) = q.keeps node tx_bytes in
        omega (arith, refused, room-antitone node (c.broadcast_tx_sync node tx_bytes).1 same more)
    | inl (resp, given) ↦
        let (result, answer, zero_code, hash) = sent_ok c node o resp given in
        let (right, counted_up) = q.takes node tx_bytes result (e ∙ answer) zero_code in
        let same = (q.keeps node tx_bytes).0 in
        rw (given, same, counted_up) (ground (arith, right, s))
  ]
    where
      ok_or_not :
          (o : Outcome Bytes TxResponse) → ((resp : TxResponse) × (o ≡ ok resp)) ⊎ (counted c o ≡ 0)
      ok_or_not (ok resp) = inl (resp, refl)
      ok_or_not (err fault) = inr refl
      ok_or_not panic = inr refl

  -- The bytes are signed with the sequence in the last block's state.
  sequence-signed :
      (node : c.Node) (msgs : List (SdkMsg c.Coins)) (tx_bytes : Bytes)
      → signed_bytes c node msgs ≡ ok tx_bytes
      → q.sequence_of tx_bytes ≡ q.committed node
  sequence-signed node msgs tx_bytes e =
      let (addr, acc, tx, tx', signer, account, built, signed, encoded) =
        signed_bytes_ok c node msgs tx_bytes e in
      q.signs acc.0 acc.1 msgs tx tx' tx_bytes built signed encoded ∙ q.reads node addr acc account

  send-Uses :
      (node : c.Node) (msgs : List (SdkMsg c.Coins)) (o : Outcome Bytes Bytes)
      → signed_bytes c node msgs ≡ o
      → Uses node (send c node o)
  unfolding send
  send-Uses node msgs (ok tx_bytes) e =
      answered-Uses node tx_bytes _ (sequence-signed node msgs tx_bytes e) refl
  send-Uses node msgs (err fault) e = omega arith
  send-Uses node msgs panic e = omega arith

  room_le : (node : c.Node) → room node ≤ 1
  room_le node = ground arith

  broadcast_msg-Uses :
      (node : c.Node) (msgs : List (SdkMsg c.Coins)) → Uses node (broadcast_msg c node msgs)
  unfolding broadcast_msg
  broadcast_msg-Uses node msgs = send-Uses node msgs (signed_bytes c node msgs) refl

  taken-room :
      (events : List (Event c)) (node : c.Node) → taken c node events ≤ room node + blocks c events
  unfolding taken blocks
  taken-room [] node = omega arith
  taken-room (sends msgs ∷ events) node =
      omega (arith, broadcast_msg-Uses node msgs, taken-room events (broadcast_msg c node msgs).1)
  taken-room (block node' ∷ events) node = omega (arith, taken-room events node', room_le node')

  -- Where the account query reads the state of the last block and the node takes a transaction only with the
  -- next sequence of the state that it checks by: however many messages the backend sends, one call of
  -- `broadcastMsg` after the other, and in whatever states the blocks between them leave the node, no more
  -- calls succeed than there are blocks, and one.
  pub taken-le-blocks :
      (events : List (Event c)) (node : c.Node) → taken c node events ≤ suc (blocks c events)
  taken-le-blocks events node = omega (arith, taken-room events node, room_le node)

  -- Behind a call that succeeded, the next one does not before a block.
  pub second_refused :
      (node : c.Node) (msgs msgs' : List (SdkMsg c.Coins)) (resp resp' : TxResponse)
      → (broadcast_msg c node msgs).0 ≡ ok resp
      → (broadcast_msg c (broadcast_msg c node msgs).1 msgs').0 ≢ ok resp'
  second_refused node msgs msgs' resp resp' first second =
      let node1 = (broadcast_msg c node msgs).1 in
      let used : 1 + room node1 ≤ room node = rw first at (broadcast_msg-Uses node msgs) in
      let again : 1 + room (broadcast_msg c node1 msgs').1 ≤ room node1 =
        rw second at (broadcast_msg-Uses node1 msgs') in
      omega (arith, used, again, room_le node)
