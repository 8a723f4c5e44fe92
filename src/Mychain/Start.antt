-- ===== src/Mychain/Start.antt =====
-- mychain/app/app.go, encoding.go and export.go: `New` with its calls that can fail, the genesis and the
-- export; mychain/cmd/mychaind/root.go: the calls of these. `New` returns no error: an error of the
-- model is the text that it panics with.
use poc_cometbft.Prelude.{
  ◌++◌, must, ℕ, List, Bool, true, false, Option, none, some, Outcome, ok, ◌>>=◌,
}
use poc_cometbft.Bytes.{Bytes, bytes}
use poc_cometbft.Bytes.Wrap.{wrap}
use poc_cometbft.Mychain.Names.{ModuleName}
use poc_cometbft.Mychain.Keepers.{
  Construction, sdk_constructions, ibc_constructions, wasm_constructions,
}
use poc_cometbft.Mychain.Wiring.{
  manager_modules, order_begin_blockers, order_end_blockers, order_init_genesis,
}
use poc_cometbft.Mychain.Ante.{AnteTypes, Decorator, HandlerOptions, new_ante_handler}

-- What `New` and the application use of the libraries: the constructors of the keepers, and those of
-- them that the ante handler is given, which are not nil; the limit in the wasm configuration; the checks of the module manager, of an order against its modules; the store.
pub record AppSdk (t : AnteTypes) : Type 1 where
  pub Handler : Type 0
  pub Store : Type 0
  pub Genesis : Type 0
  pub Options : Type 0
  pub account_keeper : t.AccountKeeper
  pub bank_keeper : t.BankKeeper
  pub feegrant_keeper : t.FeegrantKeeper
  pub sign_mode_handler : t.SignModeHandler
  pub sig_gas_consumer : t.SigGasConsumer
  pub ibc_keeper : t.IbcKeeper
  pub wasm_store_service : t.StoreService
  pub chain_ante_decorators : List (Decorator t) → Handler
  pub new_interface_registry : Outcome Bytes (Unit {0})
  pub make_keepers : List Construction → Outcome Bytes (Unit {0})
  pub read_wasm_config : Options → Outcome Bytes (Option ℕ)
  pub set_order : List ModuleName → List ModuleName → Outcome Bytes (Unit {0})
  pub register_services : List ModuleName → Outcome Bytes (Unit {0})
  pub load_latest_version : Outcome Bytes Store
  pub unmarshal_genesis : Bytes → Outcome Bytes Genesis
  pub init_genesis : List ModuleName → Option Store → Genesis → Outcome Bytes Store
  pub begin_block : List ModuleName → Option Store → Outcome Bytes Store
  pub end_block : List ModuleName → Option Store → Outcome Bytes Store
  pub new_context : Option Store → Outcome Bytes Store
  pub export_genesis_for_modules : Store → List Bytes → Outcome Bytes Genesis
  pub marshal_indent : Genesis → Outcome Bytes Bytes

-- The store is none where no version was loaded.
pub record App {t : AnteTypes} (s : AppSdk t) : Type 0 where
  pub modules : List ModuleName
  pub begin_blockers : List ModuleName
  pub end_blockers : List ModuleName
  pub genesis_order : List ModuleName
  pub ante_handler : s.Handler
  pub store : Option s.Store

module _ {t : AnteTypes} (s : AppSdk t) where
  abbrev pub handler_options : Option ℕ → HandlerOptions t
  handler_options simulation_gas_limit = record {
    account_keeper = some s.account_keeper;
    bank_keeper = some s.bank_keeper;
    feegrant_keeper = some s.feegrant_keeper;
    sign_mode_handler = some s.sign_mode_handler;
    extension_option_checker = none;
    tx_fee_checker = none;
    sig_gas_consumer = some s.sig_gas_consumer;
    ibc_keeper = some s.ibc_keeper;
    wasm_config = some simulation_gas_limit;
    tx_counter_store_service = some s.wasm_store_service;
  }

  unfoldable pub make_encoding_config : Outcome Bytes (Unit {0})
  make_encoding_config = s.new_interface_registry

  unfoldable pub loaded : Bool → Outcome Bytes (Option s.Store)
  loaded false = ok none
  loaded true = do store ← s.load_latest_version; ok (some store)

  unfoldable pub new : Bool → s.Options → Outcome Bytes (App s)
  unfolding make_encoding_config loaded
  new load_latest app_opts = do
    _ ← make_encoding_config
    _ ← s.make_keepers (sdk_constructions ++ ibc_constructions)
    simulation_gas_limit ← wrap (bytes "error reading wasm config: ") (s.read_wasm_config app_opts)
    _ ← s.make_keepers wasm_constructions
    _ ← s.set_order manager_modules order_begin_blockers
    _ ← s.set_order manager_modules order_end_blockers
    _ ← s.set_order manager_modules order_init_genesis
    _ ← s.register_services manager_modules
    ante_handler ← new_ante_handler t s.chain_ante_decorators (handler_options simulation_gas_limit)
    store ← loaded load_latest
    ok (record {
      modules = manager_modules;
      begin_blockers = order_begin_blockers;
      end_blockers = order_end_blockers;
      genesis_order = order_init_genesis;
      ante_handler = ante_handler;
      store = store;
    })

  -- A text that is no genesis is a panic; an error of the module manager is returned.
  unfoldable pub init_chainer : App s → Bytes → Outcome Bytes s.Store
  init_chainer app app_state_bytes = do
    genesis_state ← must (s.unmarshal_genesis app_state_bytes)
    s.init_genesis app.genesis_order app.store genesis_state

  unfoldable pub begin_blocker : App s → Outcome Bytes s.Store
  begin_blocker app = s.begin_block app.begin_blockers app.store

  unfoldable pub end_blocker : App s → Outcome Bytes s.Store
  end_blocker app = s.end_block app.end_blockers app.store

  unfoldable pub export_app_state_and_validators :
      App s → Bool → List Bytes → List Bytes → Outcome Bytes Bytes
  export_app_state_and_validators app for_zero_height jail_allowed_addrs modules_to_export = do
    ctx ← s.new_context app.store
    gen_state ← s.export_genesis_for_modules ctx modules_to_export
    wrap (bytes "failed to marshal app state: ") (s.marshal_indent gen_state)

  unfoldable pub new_app : s.Options → Outcome Bytes (App s)
  unfolding new
  new_app app_opts = new true app_opts

  unfoldable pub app_export : ℕ → Bool → List Bytes → s.Options → List Bytes → Outcome Bytes Bytes
  unfolding new export_app_state_and_validators
  app_export height for_zero_height jail_allowed_addrs app_opts modules_to_export = do
    app ← must (new false app_opts)
    export_app_state_and_validators app for_zero_height jail_allowed_addrs modules_to_export
