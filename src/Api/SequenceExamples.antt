-- ===== src/Api/SequenceExamples.antt =====
-- A node that counts the transactions it takes: of three messages that are sent, one block between the
-- second and the third, the second is refused.
use poc_cometbft.Prelude.{
  ℕ, suc, ◌≤◌, ◌≡◌, refl, sym, ap, ◌∙◌, List, [], ◌∷◌, Outcome, ok, err, if◌then◌else◌, ◌==◌,
  ==_iff, arith, inl, inr, Bool-cases, ok-injective,
}
use poc_cometbft.Bytes.{Bytes, bytes}
use poc_cometbft.Api.ChainClient
use poc_cometbft.Api.ChainClient.{SdkMsg, Chain, Broadcast, TxResponse, signed_bytes}
use poc_cometbft.Api.Sequences.{Sequences, Event, sends, block, taken, blocks, taken-le-blocks}

-- The sequence in the last block's state, and that in the state for checks.
abbrev Node : Type 0
Node = ℕ × ℕ

abbrev signed_with : Bytes → ℕ
signed_with [] = 0
signed_with (n ∷ rest) = n

abbrev answer : ℕ → Broadcast
answer code = record { code = code; log = []; hash = [] }

abbrev take_tx : Node → Bytes → Outcome Bytes Broadcast × Node
take_tx node tx =
    if signed_with tx == node.1
    then (ok (answer 0), (node.0, suc node.1))
    else (ok (answer 32), node)

abbrev chain : Chain
chain = record {
  Node = Node;
  Key = Unit;
  AnyAccount = ℕ × ℕ;
  Tx = ℕ;
  key = ok tt;
  get_address = λ k. ok (bytes "alice");
  query_account = λ node addr. ok (1, node.0);
  unpack_any = λ account. ok account;
  build = λ number sequence msgs. ok sequence;
  sign = λ tx. ok tx;
  encode = λ tx. ok (tx ∷ []);
  broadcast_tx_sync = take_tx;
  query_task = λ node id. err [];
  query_list_tasks = λ node. ok [];
  status = λ node. ok tt;
  Coin = Unit;
  Coins = Unit;
  parse_coin = λ text. ok tt;
  new_coins = λ coin. ok coin;
  smart_contract_state = λ node contract query. err [];
  contracts_by_code = λ node code_id. ok [];
  Json = Unit;
  unmarshal_json = λ data_bytes. ok tt;
}

read_now :
    (node : Node) (addr : Bytes) (acc : ℕ × ℕ)
    → ChainClient.get_account chain node addr ≡ ok acc
    → acc.1 ≡ node.0
unfolding ChainClient.get_account
read_now node addr acc e = ap (λ a. a.1) (sym (ok-injective e))

signed_so :
    (sequence tx tx' : ℕ) (tx_bytes : Bytes)
    → ◌≡◌ {A = Outcome Bytes ℕ} (ok sequence) (ok tx)
    → ◌≡◌ {A = Outcome Bytes ℕ} (ok tx) (ok tx')
    → ◌≡◌ {A = Outcome Bytes Bytes} (ok (tx' ∷ [])) (ok tx_bytes)
    → signed_with tx_bytes ≡ sequence
signed_so sequence tx tx' tx_bytes built signed encoded =
    ap signed_with (sym (ok-injective encoded)) ∙ sym (ok-injective built ∙ ok-injective signed)

kept :
    (node : Node) (tx : Bytes) → ((take_tx node tx).1.0 ≡ node.0) × (node.1 ≤ (take_tx node tx).1.1)
kept node tx = elim (Bool-cases (signed_with tx == node.1)) [
  | inl right ↦ rw right (refl, omega arith)
  | inr wrong ↦ rw wrong (refl, omega arith)
]

counted_up :
    (node : Node) (tx : Bytes) (result : Broadcast)
    → (take_tx node tx).0 ≡ ok result
    → result.code ≡ 0
    → (signed_with tx ≡ node.1) × ((take_tx node tx).1.1 ≡ suc node.1)
counted_up node tx result e z = elim (Bool-cases (signed_with tx == node.1)) [
  | inl right ↦ ((==_iff _ _).0 right, rw right refl)
  | inr wrong ↦
      let code : 32 ≡ result.code = ap (λ b. b.code) (ok-injective (rw wrong at e)) in
      absurd (omega (arith, code, z))
]

abbrev sequences : Sequences chain
sequences = record {
  committed = λ node. node.0;
  checked = λ node. node.1;
  sequence_of = signed_with;
  reads = read_now;
  signs = λ number sequence msgs tx tx' tx_bytes built signed encoded.
      signed_so sequence tx tx' tx_bytes built signed encoded;
  keeps = kept;
  takes = counted_up;
}

abbrev events : List (Event chain)
events = sends [] ∷ sends [] ∷ block (1, 1) ∷ sends [] ∷ []

two_taken : taken chain (0, 0) events ≡ 2
unfolding taken ChainClient.broadcast_msg
two_taken = refl

taken-le-blocks_example : taken chain (0, 0) events ≤ suc (blocks chain events)
taken-le-blocks_example = taken-le-blocks chain sequences events (0, 0)
