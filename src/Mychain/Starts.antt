-- ===== src/Mychain/Starts.antt =====
-- Where the start of the application fails, and what `appExport` does.
use poc_cometbft.Prelude.{
  must, ◌++◌, ℕ, ◌≡◌, refl, sym, ap, ◌∙◌, List, Bool, false, Option, none, some, true, Outcome, ok,
  err, panic, ◌>>=◌, >>=-eq-ok, ok-injective,
}
use poc_cometbft.Bytes.{Bytes, bytes}
use poc_cometbft.Bytes.Wrap.{wrap}
use poc_cometbft.Mychain.Names.{ModuleName, count}
use poc_cometbft.Mychain.Keepers.{sdk_constructions, ibc_constructions, wasm_constructions}
use poc_cometbft.Mychain.Wiring.{
  manager_modules, order_begin_blockers, order_end_blockers, order_init_genesis,
}
use poc_cometbft.Mychain.Ante.{AnteTypes, ante_decorators, new_ante_handler}
use poc_cometbft.Mychain.Orders.{each_once}
use poc_cometbft.Mychain.Start
use poc_cometbft.Mychain.Start.{AppSdk, App, loaded, new, app_export}

-- The documentation of the module manager: an order is refused only where it leaves a module out. That of
-- the base application: its state for checks, on which `NewContext(true)` makes a context, is set where a
-- version is loaded, and is nil before.
pub record AppLaws {t : AnteTypes} (s : AppSdk t) : Type 0 where
  pub set_order_lem :
      (modules order : List ModuleName)
      → ((m : ModuleName) → count m order ≡ count m modules)
      → s.set_order modules order ≡ ok tt
  pub no_check_state : s.new_context none ≡ panic

module _ {t : AnteTypes} (s : AppSdk t) (l : AppLaws s) where
  abbrev pub app_with : Option ℕ → Option s.Store → App s
  app_with simulation_gas_limit store = record {
    modules = manager_modules;
    begin_blockers = order_begin_blockers;
    end_blockers = order_end_blockers;
    genesis_order = order_init_genesis;
    ante_handler = s.chain_ante_decorators (
        ante_decorators t (Start.handler_options s simulation_gas_limit) s.account_keeper
          s.bank_keeper s.sign_mode_handler simulation_gas_limit);
    store = store;
  }

  begin_order : s.set_order manager_modules order_begin_blockers ≡ ok tt
  begin_order = l.set_order_lem _ _ (λ m. (each_once m).2 ∙ sym (each_once m).1)

  end_order : s.set_order manager_modules order_end_blockers ≡ ok tt
  end_order = l.set_order_lem _ _ (λ m. (each_once m).3 ∙ sym (each_once m).1)

  genesis_order : s.set_order manager_modules order_init_genesis ≡ ok tt
  genesis_order = l.set_order_lem _ _ (λ m. (each_once m).4 ∙ sym (each_once m).1)

  -- `New` fails only where the interface registry, the constructors of the keepers, the wasm configuration,
  -- the services or, if it is to load, the latest version fails, in this order: the orders of the modules
  -- are accepted, and the ante handler is made with the keepers.
  pub new_lem :
      (load_latest : Bool) (app_opts : s.Options)
      → new s load_latest app_opts ≡ (
          s.new_interface_registry >>= λ _.
          s.make_keepers (sdk_constructions ++ ibc_constructions) >>= λ _.
          wrap (bytes "error reading wasm config: ") (s.read_wasm_config app_opts)
          >>= λ simulation_gas_limit. s.make_keepers wasm_constructions >>= λ _.
              s.register_services manager_modules >>= λ _.
              loaded s load_latest >>= λ store. ok (app_with simulation_gas_limit store))
  unfolding new new_ante_handler Start.make_encoding_config
  new_lem load_latest app_opts = rw (begin_order, end_order, genesis_order) refl

  -- An application that `New` made is the one with the store that it loaded, if any.
  new_made :
      (load_latest : Bool) (app_opts : s.Options) (app : App s)
      → new s load_latest app_opts ≡ ok app
      → (limit : Option ℕ) × (store : Option s.Store) × (loaded s load_latest ≡ ok store)
        × (app_with limit store ≡ app)
  new_made load_latest app_opts app made =
      let (u, registry, made1) =
        >>=-eq-ok s.new_interface_registry _ (sym (new_lem load_latest app_opts) ∙ made) in
      let (keepers, made_keepers, made2) =
        >>=-eq-ok (s.make_keepers (sdk_constructions ++ ibc_constructions)) _ made1 in
      let (simulation_gas_limit, wasm, made3) =
        >>=-eq-ok (wrap (bytes "error reading wasm config: ") (s.read_wasm_config app_opts)) _
          made2 in
      let (wasm_keepers, made_wasm, made4) =
        >>=-eq-ok (s.make_keepers wasm_constructions) _ made3 in
      let (v, services, made5) = >>=-eq-ok (s.register_services manager_modules) _ made4 in
      let (store, given, made6) = >>=-eq-ok (loaded s load_latest) _ made5 in
      (simulation_gas_limit, store, given, ok-injective made6)

  pub new_order :
      (load_latest : Bool) (app_opts : s.Options) (app : App s)
      → new s load_latest app_opts ≡ ok app
      → app.genesis_order ≡ order_init_genesis
  new_order load_latest app_opts app made =
      let (limit, store, given, e) = new_made load_latest app_opts app made in
      ap (λ a. a.genesis_order) (sym e)

  -- The blockers of an application that `New` made over a store run the modules in their orders.
  pub blockers_lem :
      (app_opts : s.Options) (app : App s)
      → new s true app_opts ≡ ok app
      → (store : s.Store) × (s.load_latest_version ≡ ok store)
        × (Start.begin_blocker s app ≡ s.begin_block order_begin_blockers (some store))
        × (Start.end_blocker s app ≡ s.end_block order_end_blockers (some store))
  unfolding loaded Start.begin_blocker Start.end_blocker
  blockers_lem app_opts app made =
      let (limit, store, given, e) = new_made true app_opts app made in
      let (st, latest, made_some) = >>=-eq-ok s.load_latest_version _ given in
      (
        st,
        latest,
        ap (λ a. s.begin_block a.begin_blockers a.store) (sym e)
            ∙ ap (s.begin_block order_begin_blockers) (sym (ok-injective made_some)),
        ap (λ a. s.end_block a.end_blockers a.store) (sym e)
            ∙ ap (s.end_block order_end_blockers) (sym (ok-injective made_some)),
      )

  new-unloaded :
      (app_opts : s.Options) (app : App s) → new s false app_opts ≡ ok app → app.store ≡ none
  unfolding loaded
  new-unloaded app_opts app made =
      let (limit, store, given, e) = new_made false app_opts app made in
      ap (λ a. a.store) (sym e) ∙ sym (ok-injective given)

  export-unloaded :
      (app_opts : s.Options) (for_zero_height : Bool)
      (jail_allowed_addrs modules_to_export : List Bytes) (o : Outcome Bytes (App s))
      → new s false app_opts ≡ o
      → (must {F = Bytes} o >>= λ app.
          Start.export_app_state_and_validators s app for_zero_height jail_allowed_addrs
            modules_to_export)
        ≡ panic
  unfolding Start.export_app_state_and_validators
  export-unloaded app_opts for_zero_height jail_allowed_addrs modules_to_export (ok app) made =
      rw (new-unloaded app_opts app made, l.no_check_state) refl
  export-unloaded app_opts for_zero_height jail_allowed_addrs modules_to_export (err e) made = refl
  export-unloaded app_opts for_zero_height jail_allowed_addrs modules_to_export panic made = refl

  -- `appExport` panics, whatever height and modules it is asked for: it loads no version of the store, so
  -- that there is no state on which a context could be made, if `New` has not panicked before.
  pub app_export_lem :
      (height : ℕ) (for_zero_height : Bool) (jail_allowed_addrs : List Bytes) (app_opts : s.Options)
      (modules_to_export : List Bytes)
      → app_export s height for_zero_height jail_allowed_addrs app_opts modules_to_export ≡ panic
  unfolding app_export
  app_export_lem height for_zero_height jail_allowed_addrs app_opts modules_to_export =
      export-unloaded app_opts for_zero_height jail_allowed_addrs modules_to_export
        (new s false app_opts) refl
