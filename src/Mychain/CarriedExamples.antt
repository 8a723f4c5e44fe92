-- ===== src/Mychain/CarriedExamples.antt =====
-- A chain whose modules but the task registry keep nothing, with a genesis of one task.
use poc_cometbft.Prelude.{
  ◌≡◌, ◌≢◌, refl, sym, ap, ◌∙◌, List, [], ◌∷◌, true, false, Option, none, some, Outcome, ok, ◌>>=◌,
  must, must_ok, >>=-eq-ok, ok-injective, arith,
}
use poc_cometbft.Bytes.{Bytes, bytes}
use poc_cometbft.Mychain.Names.{ModuleName}
use poc_cometbft.Mychain.Wiring.{order_init_genesis}
use poc_cometbft.Mychain.Start
use poc_cometbft.Mychain.Start.{AppSdk, App, loaded, new, init_chainer}
use poc_cometbft.Mychain.Starts.{AppLaws, app_with, new_lem}
use poc_cometbft.Mychain.Manager.{Manager, ManagerLaws, init_modules, init_section}
use poc_cometbft.Mychain.Carried.{export-init_chainer}
use poc_cometbft.Mychain.Examples.{types, run}
use poc_cometbft.Taskreg.Types.{Task, GenesisState}
use poc_cometbft.Taskreg.Memory.{Store, store, store-laws, codec, codec-laws, empty}
use poc_cometbft.Taskreg.Restored.{export-init_genesis_json}
use poc_cometbft.Taskreg.Empty.{empty-IsTaskStore, empty-HasNoTask}
use poc_cometbft.Taskreg.Genesis
use poc_cometbft.Taskreg.Module
use poc_cometbft.Taskreg.Module.{JsonCodec}

abbrev painting : Task
painting = record {
  id = 4;
  title = bytes "paint";
  description = [];
  creator = bytes "alice";
  assignee = [];
  status = 1;
}

abbrev tasks : GenesisState
tasks = record { tasks = painting ∷ []; next_task_id = 5 }

abbrev text : Bytes
text = bytes "{}"

-- A codec that knows one text.
abbrev json : JsonCodec
json = record { marshal_json = λ gs. ok text; unmarshal_json = λ bz. ok tasks }

-- A genesis is the section for the task registry.
abbrev Section : Type 0
Section = Option Bytes

abbrev init_of : ModuleName → Store → Bytes → Outcome Bytes Store
init_of ModuleName.taskreg st bz = must (Module.init_genesis json store codec st bz)
init_of _ st bz = ok st

abbrev section_of : Section → ModuleName → Option Bytes
section_of genesis ModuleName.taskreg = genesis
section_of genesis _ = none

abbrev init_one : ModuleName → Option Bytes → Store → Outcome Bytes Store
init_one name none st = ok st
init_one name (some bz) st = init_of name st bz

abbrev init_all : List ModuleName → Section → Store → Outcome Bytes Store
init_all [] genesis st = ok st
init_all (name ∷ names) genesis st =
    init_one name (section_of genesis name) st >>= λ st'. init_all names genesis st'

abbrev init_some : List ModuleName → Option Store → Section → Outcome Bytes Store
init_some names none genesis = init_all names genesis empty
init_some names (some st) genesis = init_all names genesis st

abbrev context_on : Option Store → Outcome Bytes Store
context_on none = Outcome.panic
context_on (some st) = ok st

abbrev export_one : Store → List Bytes → Outcome Bytes Section
export_one st names = must (Module.export_genesis json store codec st) >>= λ bz. ok (some bz)

abbrev chain : AppSdk types
chain = record {
  Handler = _;
  Store = Store;
  Genesis = Section;
  Options = Unit;
  account_keeper = tt;
  bank_keeper = tt;
  feegrant_keeper = tt;
  sign_mode_handler = tt;
  sig_gas_consumer = tt;
  ibc_keeper = tt;
  wasm_store_service = tt;
  chain_ante_decorators = run;
  new_interface_registry = ok tt;
  make_keepers = λ made. ok tt;
  read_wasm_config = λ opts. ok none;
  set_order = λ modules order. ok tt;
  register_services = λ modules. ok tt;
  load_latest_version = ok empty;
  unmarshal_genesis = λ state. ok (some state);
  init_genesis = init_some;
  begin_block = λ order st. ok empty;
  end_block = λ order st. ok empty;
  new_context = context_on;
  export_genesis_for_modules = export_one;
  marshal_indent = λ genesis. ok text;
}

abbrev chain_laws : AppLaws chain
chain_laws = record { set_order_lem = λ modules order h. refl; no_check_state = refl }

abbrev manager : Manager chain store
manager = record { section = section_of; taskreg_store = λ st. st; module_init = init_of }

init_section_lem :
    (name : ModuleName) (part : Option Bytes) (st : Store)
    → init_section chain manager name part st ≡ init_one name part st
unfolding init_section
init_section_lem name none st = refl
init_section_lem name (some bz) st = refl

init_modules_lem :
    (names : List ModuleName) (st : Store) (genesis : Section)
    → init_modules chain manager names genesis st ≡ init_all names genesis st
unfolding init_modules
init_modules_lem [] st genesis = refl
init_modules_lem (name ∷ names) st genesis = rw init_section_lem (
    ap (λ next. init_one name (section_of genesis name) st >>= next)
      (λ i st'. init_modules_lem names st' genesis i))

others_keep :
    (name : ModuleName) (st st' : Store) (bz : Bytes)
    → name ≢ ModuleName.taskreg
    → init_of name st bz ≡ ok st'
    → st' ≡ st
others_keep ModuleName.taskreg st st' bz other e = absurd (other refl)
others_keep _ st st' bz other e = sym (ok-injective e)

exports :
    (st : Store) (genesis : Section)
    → export_one st [] ≡ ok genesis
    → (bz : Bytes) × (Module.export_genesis json store codec st ≡ ok bz) × (genesis ≡ some bz)
exports st genesis e =
    let (bz, given, made) = >>=-eq-ok (must (Module.export_genesis json store codec st)) _ e in
    (bz, must_ok _ bz given, sym (ok-injective made))

abbrev manager_laws : ManagerLaws chain manager json codec
manager_laws = record {
  in_order = λ order st st' genesis e. init_modules_lem order st genesis ∙ e;
  own_store = others_keep;
  taskreg_init = λ st st' bz e. must_ok _ st' e;
  context_lem = λ st. refl;
  taskreg_export = exports;
}

abbrev app : App chain
app = app_with chain chain_laws none (some empty)

made : new chain true tt ≡ ok app
unfolding loaded
made = new_lem chain chain_laws true tt

-- The store behind the genesis.
abbrev imported : Store
imported = Genesis.init_genesis store codec empty tasks

initialised : init_chainer chain app text ≡ ok imported
unfolding init_chainer order_init_genesis Module.init_genesis
initialised = refl

round :
    (Module.init_genesis json store codec empty text >>= λ st.
    Module.export_genesis json store codec st)
    ≡ ok text
round =
    export-init_genesis_json json store store-laws codec codec-laws empty tasks text refl refl
      empty-IsTaskStore empty-HasNoTask (omega arith, tt) (tt, tt) (omega arith)

module_exports : Module.export_genesis json store codec imported ≡ ok text
unfolding Module.init_genesis
module_exports = round

exported :
    Start.export_app_state_and_validators chain (record app { store = some imported }) false [] []
    ≡ ok text
unfolding Start.export_app_state_and_validators
exported = rw module_exports refl

export-init_chainer_example :
    (genesis' : Section) × (◌≡◌ {A = Outcome Bytes Bytes} (ok text) (ok text))
    × (section_of genesis' ModuleName.taskreg ≡ some text)
export-init_chainer_example =
    export-init_chainer chain chain_laws store-laws manager json codec codec-laws manager_laws tt
      app empty imported text (some text) tasks text false [] text made refl refl refl refl refl
      empty-IsTaskStore empty-HasNoTask (omega arith, tt) (tt, tt) (omega arith) initialised
      exported
