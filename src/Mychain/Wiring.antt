-- ===== src/Mychain/Wiring.antt =====
-- mychain/app/app.go: the lists of the application's parts, its params keeper and its blocked addresses.
use poc_cometbft.Prelude.{List, [], ◌∷◌, Option, none, some, if◌then◌else◌, map}
use poc_cometbft.Bytes.{Bytes}
use poc_cometbft.Mychain.Names.{
  ModuleName, AccountName, Permission, same_name, auth, genutil, bank, staking, mint, distribution,
  gov, params, crisis, slashing, feegrant, upgrade, evidence, vesting, consensus, capability, ibc,
  ibc_fee, transfer, wasm, taskreg, fee_collector, distribution_account, mint_account, bonded_pool,
  not_bonded_pool, gov_account, transfer_account, ibc_fee_account, wasm_account, minter, burner,
  staker,
}

unfoldable pub module_basics : List ModuleName
module_basics =
    auth ∷ genutil ∷ bank ∷ staking ∷ mint ∷ distribution ∷ gov ∷ params ∷ crisis ∷ slashing
    ∷ feegrant ∷ upgrade ∷ evidence ∷ vesting ∷ consensus ∷ capability ∷ ibc ∷ ibc_fee ∷ transfer
    ∷ wasm ∷ taskreg ∷ []

-- A nil list of permissions is the empty one.
unfoldable pub macc_perms : List (AccountName × List Permission)
macc_perms =
    (fee_collector, [])
    ∷ (distribution_account, [])
    ∷ (mint_account, minter ∷ [])
    ∷ (bonded_pool, burner ∷ staker ∷ [])
    ∷ (not_bonded_pool, burner ∷ staker ∷ [])
    ∷ (gov_account, burner ∷ [])
    ∷ (transfer_account, minter ∷ burner ∷ [])
    ∷ (ibc_fee_account, [])
    ∷ (wasm_account, burner ∷ [])
    ∷ []

-- The modules whose store keys are mounted.
unfoldable pub store_keys : List ModuleName
store_keys =
    auth ∷ bank ∷ staking ∷ mint ∷ distribution ∷ slashing ∷ gov ∷ params ∷ consensus ∷ upgrade
    ∷ feegrant ∷ evidence ∷ capability ∷ crisis ∷ ibc ∷ transfer ∷ ibc_fee ∷ wasm ∷ taskreg ∷ []

unfoldable pub manager_modules : List ModuleName
manager_modules =
    genutil ∷ auth ∷ vesting ∷ bank ∷ crisis ∷ feegrant ∷ gov ∷ mint ∷ slashing ∷ distribution
    ∷ staking ∷ upgrade ∷ evidence ∷ params ∷ consensus ∷ capability ∷ ibc ∷ ibc_fee ∷ transfer
    ∷ wasm ∷ taskreg ∷ []

unfoldable pub order_begin_blockers : List ModuleName
order_begin_blockers =
    upgrade ∷ capability ∷ mint ∷ distribution ∷ slashing ∷ evidence ∷ staking ∷ ibc ∷ transfer
    ∷ ibc_fee ∷ auth ∷ bank ∷ gov ∷ crisis ∷ genutil ∷ feegrant ∷ params ∷ vesting ∷ consensus
    ∷ taskreg ∷ wasm ∷ []

unfoldable pub order_end_blockers : List ModuleName
order_end_blockers =
    crisis ∷ gov ∷ staking ∷ capability ∷ ibc ∷ transfer ∷ ibc_fee ∷ auth ∷ bank ∷ distribution
    ∷ slashing ∷ mint ∷ genutil ∷ evidence ∷ feegrant ∷ params ∷ upgrade ∷ vesting ∷ consensus
    ∷ taskreg ∷ wasm ∷ []

unfoldable pub order_init_genesis : List ModuleName
order_init_genesis =
    capability ∷ auth ∷ bank ∷ distribution ∷ staking ∷ slashing ∷ gov ∷ mint ∷ crisis ∷ genutil
    ∷ ibc ∷ transfer ∷ ibc_fee ∷ evidence ∷ feegrant ∷ params ∷ upgrade ∷ vesting ∷ consensus
    ∷ taskreg ∷ wasm ∷ []

-- The subspaces of the params keeper, by the modules they are for.
unfoldable pub init_params_keeper : List ModuleName
init_params_keeper =
    auth ∷ bank ∷ staking ∷ mint ∷ distribution ∷ slashing ∷ gov ∷ crisis ∷ ibc ∷ transfer ∷ wasm
    ∷ []

-- The keeper's `GetSubspace`, whose flag the application drops: none is the zero subspace.
unfoldable pub get_subspace : List ModuleName → ModuleName → Option ModuleName
get_subspace [] m = none
get_subspace (n ∷ subspaces) m =
    let later = get_subspace subspaces m in if same_name n m then some n else later

-- The modules whose subspace `New` asks for.
unfoldable pub subspaces_used : List ModuleName
subspaces_used =
    ibc ∷ transfer ∷ auth ∷ bank ∷ crisis ∷ gov ∷ mint ∷ slashing ∷ distribution ∷ staking ∷ wasm
    ∷ []

-- `address` is `NewModuleAddress` of an account, as a string; the list is the keys of the map.
unfoldable pub blocked_addresses : (AccountName → Bytes) → List Bytes
unfolding macc_perms
blocked_addresses address = map (λ acc. address acc.0) macc_perms
