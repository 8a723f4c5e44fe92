-- ===== src/Mychain/Names.antt =====
-- mychain/app/app.go: the names of the modules and of the module accounts, which are constants of the
-- libraries but for taskreg's.
use poc_cometbft.Prelude.{ℕ, List, [], ◌∷◌, Bool, ◌==◌, if◌then◌else◌, suc}

pub data ModuleName : Type 0 where
  auth genutil bank staking mint distribution gov params crisis slashing : ModuleName
  feegrant upgrade evidence vesting consensus capability ibc ibc_fee transfer : ModuleName
  wasm taskreg : ModuleName

abbrev pub index : ModuleName → ℕ
index auth = 0
index genutil = 1
index bank = 2
index staking = 3
index mint = 4
index distribution = 5
index gov = 6
index params = 7
index crisis = 8
index slashing = 9
index feegrant = 10
index upgrade = 11
index evidence = 12
index vesting = 13
index consensus = 14
index capability = 15
index ibc = 16
index ibc_fee = 17
index transfer = 18
index wasm = 19
index taskreg = 20

abbrev pub same_name : ModuleName → ModuleName → Bool
same_name m n = index m == index n

-- How often a module stands in a list.
abbrev pub count : ModuleName → List ModuleName → ℕ
count m [] = 0
count m (n ∷ names) = let rest = count m names in if same_name m n then suc rest else rest

pub data AccountName : Type 0 where
  fee_collector distribution_account mint_account bonded_pool not_bonded_pool : AccountName
  gov_account transfer_account ibc_fee_account wasm_account : AccountName

pub data Permission : Type 0 where
  minter burner staker : Permission
