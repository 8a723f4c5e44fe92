-- ===== src/Mychain/Orders.antt =====
-- The lists of the application name every module.
use poc_cometbft.Prelude.{◌≡◌, refl, none, some, ltb, if◌then◌else◌}
use poc_cometbft.Mychain.Names.{ModuleName, count}
use poc_cometbft.Mychain.Keepers.{constructions, keys_given}
use poc_cometbft.Mychain.Wiring.{
  module_basics, store_keys, manager_modules, order_begin_blockers, order_end_blockers,
  order_init_genesis, init_params_keeper, get_subspace, subspaces_used,
}

-- Each of the application's modules stands once in the module basics, in the module manager, in the
-- orders of the begin blockers and of the end blockers and in that of the genesis; `New` asks for a
-- subspace exactly of the modules for which the params keeper has one, which is theirs; and it gives
-- keepers the store keys exactly of the modules whose stores are mounted, each to one.
pub each_once :
    (m : ModuleName)
    → (count m module_basics ≡ 1)
      × (count m manager_modules ≡ 1)
      × (count m order_begin_blockers ≡ 1)
      × (count m order_end_blockers ≡ 1)
      × (count m order_init_genesis ≡ 1)
      × (get_subspace init_params_keeper m
          ≡ (if ltb 0 (count m subspaces_used) then some m else none))
      × (count m (keys_given constructions) ≡ count m store_keys)
unfolding module_basics manager_modules order_begin_blockers order_end_blockers order_init_genesis
    get_subspace init_params_keeper subspaces_used keys_given constructions store_keys
each_once ModuleName.auth = (refl, refl, refl, refl, refl, refl, refl)
each_once _ = (refl, refl, refl, refl, refl, refl, refl)
