-- ===== src/Api/Resolved.antt =====
-- The contract that the start of the backend finds.
use mathlib.Core.Path.{subst}
use poc_cometbft.Prelude.{
  must, ℕ, zero, suc, ◌+◌, ◌<◌, ◌≤◌, ◌≡◌, ◌≢◌, ◌⊎◌, inl, inr, refl, sym, ap, ◌∙◌, List, [], ◌∷◌,
  false, Option, Outcome, ok, err, panic, >>=-eq-ok, ok-injective, ltb, arith, Bool-cases,
}
use poc_cometbft.Bytes.Wrap.{wrap, wrap_ok}
use poc_cometbft.Bytes.{Bytes, bytes}
use poc_cometbft.Api.ChainClient.{Chain}
use poc_cometbft.Api.KvClient.{new_kv_store_client}
use poc_cometbft.Api.Contract.{
  Client, Connect, new_chain_client, set_contract_addr, resolve_contract_by_code_id, first_contract,
}
use poc_cometbft.Api.Start.{Config, Started, read_config, resolve_loop, resolve, start}

Outcome-cases :
    {A : Type 0} (o : Outcome Bytes A)
    → ((a : A) × (o ≡ ok a)) ⊎ (((e : Bytes) × (o ≡ err e)) ⊎ (o ≡ panic))
Outcome-cases (ok a) = inl (a, refl)
Outcome-cases (err e) = inr (inl (e, refl))
Outcome-cases panic = inr (inr refl)

module _ (c : Chain) (node_at : ℕ → c.Node) (code_id : ℕ) where
  -- A try from `i` on, before `end`, at which the chain lists `addr` first among the code's contracts.
  pub record Found (i end : ℕ) (addr : Bytes) : Type 0 where
    pub try : ℕ
    pub others : List Bytes
    pub from : i ≤ try
    pub before : try < end
    pub listed : c.contracts_by_code (node_at try) code_id ≡ ok (addr ∷ others)

  -- At every try from `i` on, before `end`, the look for the contract ended in an error.
  abbrev pub AllFailed : ℕ → ℕ → Type 0
  AllFailed i end =
      (k : ℕ)
      → i ≤ k
      → k < end
      → (e : Bytes) × (resolve_contract_by_code_id c (node_at k) code_id ≡ err e)

  first_contract_ok :
      (contracts : List Bytes) (addr : Bytes)
      → first_contract c code_id contracts ≡ ok addr
      → (others : List Bytes) × (contracts ≡ addr ∷ others)
  unfolding first_contract
  first_contract_ok [] addr h = cc
  first_contract_ok (given ∷ contracts) addr h =
      (contracts, ap (λ a. a ∷ contracts) (ok-injective h))

  resolved_listed :
      (node : c.Node) (addr : Bytes)
      → resolve_contract_by_code_id c node code_id ≡ ok addr
      → (others : List Bytes) × (c.contracts_by_code node code_id ≡ ok (addr ∷ others))
  unfolding resolve_contract_by_code_id
  resolved_listed node addr h =
      let (contracts, listed, first) =
        >>=-eq-ok (wrap (bytes "query contracts by code: ") (c.contracts_by_code node code_id)) _
          h in
      let (others, same) = first_contract_ok contracts addr first in
      (others, wrap_ok (bytes "query contracts by code: ") _ contracts listed ∙ ap ok same)

  resolve_loop_lem :
      (tries i : ℕ) (client after : Client)
      → resolve_loop c node_at code_id tries i client ≡ ok after
      → ((after ≡ client) × AllFailed i (i + tries))
        ⊎ ((addr : Bytes) × (after ≡ set_contract_addr client addr) × Found i (i + tries) addr)
  unfolding resolve_loop
  resolve_loop_lem zero i client after h =
      inl (sym (ok-injective h), λ k lo hi. absurd (omega (arith, lo, hi)))
  resolve_loop_lem (suc tries) i client after h =
      elim (Outcome-cases (resolve_contract_by_code_id c (node_at i) code_id)) [
        | inl (addr, e) ↦
            let (others, listed) = resolved_listed (node_at i) addr e in
            inr (
              addr,
              sym (ok-injective (rw (e, resolve_loop) at h)),
              record {
                try = i;
                others = others;
                from = omega arith;
                before = omega arith;
                listed = listed;
              },
            )
        | inr (inr e) ↦ absurd (panic_or_ok (rw (e, resolve_loop) at h))
        | inr (inl (text, e)) ↦
            elim (resolve_loop_lem tries (suc i) client after (rw (e, resolve_loop) at h)) [
              | inl (kept, failed) ↦ inl (
                kept,
                λ k lo hi. elim (Bool-cases (ltb i k)) [
                  | inl above ↦ failed k (ground (arith, above)) (omega (arith, hi))
                  | inr same ↦
                      subst
                        (λ n.
                          (t : Bytes) × (resolve_contract_by_code_id c (node_at n) code_id ≡ err t))
                        (at_start k lo same) (text, e)
                ],
              )
              | inr (addr, set, found) ↦ inr (
                addr,
                set,
                record {
                  try = found.try;
                  others = found.others;
                  from = omega (arith, found.from);
                  before = omega (arith, found.before);
                  listed = found.listed;
                },
              )
            ]
      ]
    where
      at_start : (k : ℕ) → i ≤ k → ltb i k ≡ false → i ≡ k
      at_start k lo same = ground arith

      panic_or_ok : ◌≢◌ {A = Outcome Bytes Client} panic (ok after)
      panic_or_ok e = cc

-- A client that was just made has the empty address for the contract.
new_chain_client_ok :
    (connect : Connect) (grpc_addr rpc_addr chain_id mnemonic : Bytes) (client : Client)
    → new_chain_client connect grpc_addr rpc_addr chain_id mnemonic ≡ ok client
    → client.contract_addr ≡ []
unfolding new_chain_client
new_chain_client_ok connect grpc_addr rpc_addr chain_id mnemonic client h =
    let (u, dialled, h1) = >>=-eq-ok (wrap (bytes "grpc dial: ") (connect.dial grpc_addr)) _ h in
    let (u1, rpc, h2) =
      >>=-eq-ok (wrap (bytes "rpc client: ") (connect.new_rpc rpc_addr (bytes "/websocket"))) _
        h1 in
    let (u2, key, h3) =
      >>=-eq-ok
        (wrap (bytes "import key: ")
          (connect.new_account (bytes "admin") mnemonic [] (connect.hd_path 118 0 0)))
        _ h2 in
    sym (ap (λ k. k.contract_addr) (ok-injective h3))

-- What the address of the client is, whose address was empty, when the look for the contract is over.
module _ (c : Chain) (node_at : ℕ → c.Node) (code_id : ℕ) where
  abbrev pub Looked : Bytes → Type 0
  Looked addr =
      ((addr ≡ []) × ((code_id ≡ 0) ⊎ AllFailed c node_at code_id 0 5))
      ⊎ Found c node_at code_id 0 5 addr

  resolve_lem :
      (client after : Client)
      → client.contract_addr ≡ []
      → resolve c node_at code_id client ≡ ok after
      → Looked after.contract_addr
  unfolding resolve set_contract_addr
  resolve_lem client after empty h = elim (Bool-cases (ltb 0 code_id)) [
    | inr none_given ↦ inl (
      ap (λ k. k.contract_addr) (sym (ok-injective (rw none_given at h))) ∙ empty,
      inl (ground (arith, none_given)),
    )
    | inl given ↦ elim (resolve_loop_lem c node_at code_id 5 0 client after (rw given at h)) [
      | inl (kept, failed) ↦ inl (ap (λ k. k.contract_addr) kept ∙ empty, inr failed)
      | inr (addr, set, found) ↦
          inr
            (subst (λ a. Found c node_at code_id 0 5 a) (sym (ap (λ k. k.contract_addr) set)) found)
    ]
  ]

module _ (c : Chain) (encoding : Outcome Bytes (Unit {0})) (connect : Connect)
    (getenv : Bytes → Bytes) (get_at : Bytes → ℕ → Option ℕ) (node_at : ℕ → c.Node) where
  -- When the server starts to listen, the client has the contract that the chain listed first for the
  -- code id of the configuration at one of five tries; or it has the empty address, and the code id is
  -- zero or all five tries ended in errors.
  pub start_lem :
      (started : Started)
      → start c encoding connect getenv get_at node_at ≡ ok started
      → Looked c node_at (read_config getenv).wasm_code_id started.client.contract_addr
  unfolding start
  start_lem started h =
      let config : Config = read_config getenv in
      let (registered, encodes, h0) = >>=-eq-ok (must encoding) _ h in
      let (client, made, h1) =
        >>=-eq-ok
          (wrap (bytes "Failed to create chain client: ") (
            new_chain_client connect config.chain_grpc config.chain_rpc config.chain_id
              config.mnemonic))
          _ h0 in
      let (resolved, found, h2) = >>=-eq-ok (resolve c node_at config.wasm_code_id client) _ h1 in
      let (u, kv, h3) =
        >>=-eq-ok
          (wrap (bytes "Failed to create kvstore client: ")
            (new_kv_store_client connect.new_rpc config.kvstore_rpc))
          _ h2 in
      subst (λ k. Looked c node_at config.wasm_code_id k.contract_addr)
        (ap (λ s. s.client) (ok-injective h3))
        (resolve_lem c node_at config.wasm_code_id client resolved
          (new_chain_client_ok connect _ _ _ _ client
            (wrap_ok (bytes "Failed to create chain client: ") _ client made))
          found)
