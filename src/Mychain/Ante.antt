-- ===== src/Mychain/Ante.antt =====
-- mychain/app/ante.go. The decorators are those of the libraries; `chain_ante_decorators` is
-- `sdk.ChainAnteDecorators`.
use poc_cometbft.Prelude.{ℕ, List, [], ◌∷◌, Option, none, some, Outcome, ok, err, panic, ◌>>=◌}
use poc_cometbft.Bytes.{Bytes, bytes}

-- The types of what the options hold.
pub record AnteTypes : Type 1 where
  pub AccountKeeper : Type 0
  pub BankKeeper : Type 0
  pub FeegrantKeeper : Type 0
  pub SignModeHandler : Type 0
  pub ExtensionOptionChecker : Type 0
  pub TxFeeChecker : Type 0
  pub SigGasConsumer : Type 0
  pub IbcKeeper : Type 0
  pub StoreService : Type 0

-- A decorator with what its constructor is given; what may be nil is an option.
pub data Decorator (t : AnteTypes) : Type 0 where
  set_up_context : Decorator t
  limit_simulation_gas : Option ℕ → Decorator t
  count_tx : Option t.StoreService → Decorator t
  extension_options : Option t.ExtensionOptionChecker → Decorator t
  validate_basic : Decorator t
  tx_timeout_height : Decorator t
  validate_memo : t.AccountKeeper → Decorator t
  consume_gas_for_tx_size : t.AccountKeeper → Decorator t
  deduct_fee :
      t.AccountKeeper → t.BankKeeper → Option t.FeegrantKeeper → Option t.TxFeeChecker → Decorator t
  set_pub_key : t.AccountKeeper → Decorator t
  validate_sig_count : t.AccountKeeper → Decorator t
  sig_gas_consume : t.AccountKeeper → Option t.SigGasConsumer → Decorator t
  sig_verification : t.AccountKeeper → t.SignModeHandler → Decorator t
  increment_sequence : t.AccountKeeper → Decorator t
  redundant_relay : Option t.IbcKeeper → Decorator t

-- A pointer or an interface that is nil is none; of the wasm configuration, the code reads the limit.
pub record HandlerOptions (t : AnteTypes) : Type 0 where
  pub account_keeper : Option t.AccountKeeper
  pub bank_keeper : Option t.BankKeeper
  pub feegrant_keeper : Option t.FeegrantKeeper
  pub sign_mode_handler : Option t.SignModeHandler
  pub extension_option_checker : Option t.ExtensionOptionChecker
  pub tx_fee_checker : Option t.TxFeeChecker
  pub sig_gas_consumer : Option t.SigGasConsumer
  pub ibc_keeper : Option t.IbcKeeper
  pub wasm_config : Option (Option ℕ)
  pub tx_counter_store_service : Option t.StoreService

-- The error where it is nil.
abbrev pub required : {A : Type 0} → Bytes → Option A → Outcome Bytes A
required error none = err error
required error (some a) = ok a

abbrev pub dereferenced : {A : Type 0} → Option A → Outcome Bytes A
dereferenced none = panic
dereferenced (some a) = ok a

module _ (t : AnteTypes) where
  unfoldable pub ante_decorators :
      HandlerOptions t
      → t.AccountKeeper
      → t.BankKeeper
      → t.SignModeHandler
      → Option ℕ
      → List (Decorator t)
  ante_decorators options account_keeper bank_keeper sign_mode_handler gas_limit =
      set_up_context
      ∷ limit_simulation_gas gas_limit
      ∷ count_tx options.tx_counter_store_service
      ∷ extension_options options.extension_option_checker
      ∷ validate_basic
      ∷ tx_timeout_height
      ∷ validate_memo account_keeper
      ∷ consume_gas_for_tx_size account_keeper
      ∷ deduct_fee account_keeper bank_keeper options.feegrant_keeper options.tx_fee_checker
      ∷ set_pub_key account_keeper
      ∷ validate_sig_count account_keeper
      ∷ sig_gas_consume account_keeper options.sig_gas_consumer
      ∷ sig_verification account_keeper sign_mode_handler
      ∷ increment_sequence account_keeper
      ∷ redundant_relay options.ibc_keeper
      ∷ []

  -- A nil wasm configuration is dereferenced.
  unfoldable pub new_ante_handler :
      {Handler : Type 0} → (List (Decorator t) → Handler) → HandlerOptions t → Outcome Bytes Handler
  unfolding ante_decorators
  new_ante_handler chain_ante_decorators options = do
    account_keeper ← required (bytes "account keeper is nil") options.account_keeper
    bank_keeper ← required (bytes "bank keeper is nil") options.bank_keeper
    sign_mode_handler ← required (bytes "sign mode handler is nil") options.sign_mode_handler
    gas_limit ← dereferenced options.wasm_config
    ok (
        chain_ante_decorators
          (ante_decorators options account_keeper bank_keeper sign_mode_handler gas_limit))
