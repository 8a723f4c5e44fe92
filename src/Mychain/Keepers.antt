-- ===== src/Mychain/Keepers.antt =====
-- mychain/app/app.go: the statements of `New` that make keepers or are given some, in their order.
use poc_cometbft.Prelude.{List, [], ◌∷◌, ◌++◌, Option, none, some}
use poc_cometbft.Mychain.Names.{ModuleName, AccountName, gov_account}
use poc_cometbft.Mychain.Names

-- The keepers; the base application and the module manager, which are given keepers.
pub data KeeperName : Type 0 where
  params_keeper consensus_keeper capability_keeper scoped_ibc_keeper : KeeperName
  scoped_transfer_keeper scoped_wasm_keeper account_keeper bank_keeper : KeeperName
  staking_keeper mint_keeper distr_keeper slashing_keeper crisis_keeper : KeeperName
  feegrant_keeper upgrade_keeper evidence_keeper ibc_keeper ibc_fee_keeper : KeeperName
  transfer_keeper gov_keeper taskreg_keeper wasm_keeper : KeeperName
  base_app module_manager : KeeperName

-- A statement of `New`: the keeper that it makes or completes, the module whose store key the keeper
-- is given, the keepers that it is given, and the account that may change its parameters.
pub record Construction : Type 0 where
  pub keeper : KeeperName
  pub store_key : Option ModuleName
  pub uses : List KeeperName
  pub authority : Option AccountName

abbrev make : KeeperName → Option ModuleName → List KeeperName → Option AccountName → Construction
make keeper store_key uses authority = record {
  keeper = keeper;
  store_key = store_key;
  uses = uses;
  authority = authority;
}

-- The hooks of the staking keeper are set when the keepers that they belong to are made.
unfoldable pub sdk_constructions : List Construction
sdk_constructions =
    make params_keeper (some Names.params) [] none
    ∷ make consensus_keeper (some Names.consensus) [] (some gov_account)
    ∷ make base_app none (consensus_keeper ∷ []) none
    ∷ make capability_keeper (some Names.capability) [] none
    ∷ make scoped_ibc_keeper none (capability_keeper ∷ []) none
    ∷ make scoped_transfer_keeper none (capability_keeper ∷ []) none
    ∷ make scoped_wasm_keeper none (capability_keeper ∷ []) none
    ∷ make account_keeper (some Names.auth) [] (some gov_account)
    ∷ make bank_keeper (some Names.bank) (account_keeper ∷ []) (some gov_account)
    ∷ make staking_keeper (some Names.staking) (account_keeper ∷ bank_keeper ∷ [])
        (some gov_account)
    ∷ make mint_keeper (some Names.mint) (staking_keeper ∷ account_keeper ∷ bank_keeper ∷ [])
        (some gov_account)
    ∷ make distr_keeper (some Names.distribution)
        (account_keeper ∷ bank_keeper ∷ staking_keeper ∷ []) (some gov_account)
    ∷ make slashing_keeper (some Names.slashing) (staking_keeper ∷ []) (some gov_account)
    ∷ make staking_keeper none (staking_keeper ∷ distr_keeper ∷ slashing_keeper ∷ []) none
    ∷ make crisis_keeper (some Names.crisis) (bank_keeper ∷ account_keeper ∷ []) (some gov_account)
    ∷ make feegrant_keeper (some Names.feegrant) (account_keeper ∷ []) none
    ∷ make upgrade_keeper (some Names.upgrade) [] (some gov_account)
    ∷ make evidence_keeper (some Names.evidence)
        (staking_keeper ∷ slashing_keeper ∷ account_keeper ∷ []) none
    ∷ []

-- The gov keeper's router holds the params keeper.
unfoldable pub ibc_constructions : List Construction
ibc_constructions =
    make ibc_keeper (some Names.ibc)
      (params_keeper ∷ staking_keeper ∷ upgrade_keeper ∷ scoped_ibc_keeper ∷ []) (some gov_account)
    ∷ make ibc_fee_keeper (some Names.ibc_fee)
        (ibc_keeper ∷ ibc_keeper ∷ ibc_keeper ∷ account_keeper ∷ bank_keeper ∷ []) none
    ∷ make transfer_keeper (some Names.transfer)
        (params_keeper ∷ ibc_fee_keeper ∷ ibc_keeper ∷ ibc_keeper ∷ account_keeper ∷ bank_keeper
          ∷ scoped_transfer_keeper ∷ [])
        (some gov_account)
    ∷ make gov_keeper (some Names.gov)
        (params_keeper ∷ account_keeper ∷ bank_keeper ∷ staking_keeper ∷ distr_keeper ∷ [])
        (some gov_account)
    ∷ make taskreg_keeper (some Names.taskreg) (bank_keeper ∷ []) (some gov_account)
    ∷ []

-- What follows when the wasm configuration is read. The router of the IBC keeper is set when all that it
-- holds is made.
unfoldable pub wasm_constructions : List Construction
wasm_constructions =
    make wasm_keeper (some Names.wasm)
      (account_keeper ∷ bank_keeper ∷ staking_keeper ∷ distr_keeper ∷ ibc_fee_keeper ∷ ibc_keeper
        ∷ ibc_keeper ∷ scoped_wasm_keeper ∷ transfer_keeper ∷ [])
      (some gov_account)
    ∷ make ibc_keeper none
        (transfer_keeper ∷ ibc_fee_keeper ∷ wasm_keeper ∷ ibc_keeper ∷ ibc_fee_keeper ∷ ibc_keeper
          ∷ [])
        none
    ∷ []

-- The module manager with the keepers of its modules, in their order, a subspace being the params
-- keeper's; the invariants that it registers with the crisis keeper; and the ante handler.
unfoldable pub app_constructions : List Construction
app_constructions =
    make module_manager none
      (account_keeper ∷ staking_keeper ∷ account_keeper ∷ params_keeper ∷ account_keeper
        ∷ bank_keeper ∷ bank_keeper ∷ account_keeper ∷ params_keeper ∷ crisis_keeper ∷ params_keeper
        ∷ account_keeper ∷ bank_keeper ∷ feegrant_keeper ∷ gov_keeper ∷ account_keeper ∷ bank_keeper
        ∷ params_keeper ∷ mint_keeper ∷ account_keeper ∷ params_keeper ∷ slashing_keeper
        ∷ account_keeper ∷ bank_keeper ∷ staking_keeper ∷ params_keeper ∷ distr_keeper
        ∷ account_keeper ∷ bank_keeper ∷ staking_keeper ∷ params_keeper ∷ staking_keeper
        ∷ account_keeper ∷ bank_keeper ∷ params_keeper ∷ upgrade_keeper ∷ account_keeper
        ∷ evidence_keeper ∷ params_keeper ∷ consensus_keeper ∷ capability_keeper ∷ ibc_keeper
        ∷ ibc_fee_keeper ∷ transfer_keeper ∷ wasm_keeper ∷ staking_keeper ∷ account_keeper
        ∷ bank_keeper ∷ params_keeper ∷ taskreg_keeper ∷ [])
      none
    ∷ make crisis_keeper none (module_manager ∷ crisis_keeper ∷ []) none
    ∷ make base_app none
        (account_keeper ∷ bank_keeper ∷ feegrant_keeper ∷ ibc_keeper ∷ wasm_keeper ∷ []) none
    ∷ []

unfoldable pub constructions : List Construction
unfolding sdk_constructions ibc_constructions wasm_constructions app_constructions
constructions =
    sdk_constructions ++ (ibc_constructions ++ (wasm_constructions ++ app_constructions))

-- The keys that keepers are given, in the order of the statements.
unfoldable pub keys_given : List Construction → List ModuleName
keys_given [] = []
keys_given (c ∷ cs) = given c.store_key (keys_given cs)
  where
    given : Option ModuleName → List ModuleName → List ModuleName
    given none keys = keys
    given (some key) keys = key ∷ keys
