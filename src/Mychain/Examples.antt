-- ===== src/Mychain/Examples.antt =====
-- A chain whose decorators pass everything on.
use poc_cometbft.Prelude.{
  ℕ, suc, ◌≡◌, refl, List, [], ◌∷◌, false, Option, none, some, Outcome, ok, panic,
}
use poc_cometbft.Bytes.{Bytes, bytes}
use poc_cometbft.Mychain.Ante.{
  AnteTypes, Decorator, HandlerOptions, ante_decorators, new_ante_handler,
}
use poc_cometbft.Mychain.Accepted.{AnteSdk, AnteLaws, Accepted, accepted_lem}
use poc_cometbft.Mychain.Start
use poc_cometbft.Mychain.Start.{AppSdk, App, loaded, new, app_export}
use poc_cometbft.Mychain.Starts.{AppLaws, app_export_lem}

abbrev pub types : AnteTypes
types = record {
  AccountKeeper = Unit;
  BankKeeper = Unit;
  FeegrantKeeper = Unit;
  SignModeHandler = Unit;
  ExtensionOptionChecker = Unit;
  TxFeeChecker = Unit;
  SigGasConsumer = Unit;
  IbcKeeper = Unit;
  StoreService = Unit;
}

-- The context counts the decorators that it has passed.
abbrev pub run : List (Decorator types) → ℕ → Outcome Bytes ℕ
run [] passed = ok passed
run (d ∷ ds) passed = run ds (suc passed)

abbrev sdk : AnteSdk types
sdk = record {
  Context = ℕ;
  decorate = λ d next passed. next (suc passed);
  chain_ante_decorators = run;
  Does = λ d before after. after ≡ suc before;
}

abbrev laws : AnteLaws sdk
laws = record {
  chain_nil = λ ctx. refl;
  chain_cons = λ d ds ctx. refl;
  passes = λ d next ctx result h. (suc ctx, refl, h);
}

abbrev context_on : Option Bytes → Outcome Bytes Bytes
context_on none = panic
context_on (some store) = ok store

abbrev app_sdk : AppSdk types
app_sdk = record {
  Handler = ℕ → Outcome Bytes ℕ;
  Store = Bytes;
  Genesis = Bytes;
  Options = Unit;
  account_keeper = tt;
  bank_keeper = tt;
  feegrant_keeper = tt;
  sign_mode_handler = tt;
  sig_gas_consumer = tt;
  ibc_keeper = tt;
  wasm_store_service = tt;
  chain_ante_decorators = run;
  new_interface_registry = ok tt;
  make_keepers = λ made. ok tt;
  read_wasm_config = λ opts. ok none;
  set_order = λ modules order. ok tt;
  register_services = λ modules. ok tt;
  load_latest_version = ok (bytes "latest");
  unmarshal_genesis = λ text. ok text;
  init_genesis = λ order store genesis. ok genesis;
  begin_block = λ order store. ok (bytes "begun");
  end_block = λ order store. ok (bytes "ended");
  new_context = context_on;
  export_genesis_for_modules = λ store modules. ok (bytes "{}");
  marshal_indent = λ genesis. ok genesis;
}

abbrev app_laws : AppLaws app_sdk
app_laws = record { set_order_lem = λ modules order h. refl; no_check_state = refl }

abbrev options : HandlerOptions types
options = Start.handler_options app_sdk none

abbrev handler : ℕ → Outcome Bytes ℕ
handler = run (ante_decorators types options tt tt tt none)

handler_made : new_ante_handler types run options ≡ ok handler
unfolding new_ante_handler
handler_made = refl

handler_accepts : handler 0 ≡ ok 15
unfolding ante_decorators
handler_accepts = refl

accepted_lem_example : Accepted sdk laws options 0 15
accepted_lem_example = accepted_lem sdk laws options handler 0 15 handler_made handler_accepts

app_export_lem_example : app_export app_sdk 7 false [] tt [] ≡ panic
app_export_lem_example = app_export_lem app_sdk app_laws 7 false [] tt []
