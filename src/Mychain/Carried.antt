-- ===== src/Mychain/Carried.antt =====
-- The task registry's part of the chain's genesis, from InitChain to an export.
use poc_cometbft.Prelude.{
  ◌≡◌, sym, ap, ◌∙◌, List, [], Bool, true, some, ok, >>=-eq-ok, ok-injective, All,
}
use poc_cometbft.Bytes.{Bytes, bytes}
use poc_cometbft.Bytes.BigEndian.{IsU64}
use poc_cometbft.Bytes.Wrap.{wrap_ok}
use poc_cometbft.Mychain.Names.{ModuleName}
use poc_cometbft.Mychain.Ante.{AnteTypes}
use poc_cometbft.Mychain.Wiring.{order_init_genesis}
use poc_cometbft.Mychain.Orders.{each_once}
use poc_cometbft.Mychain.Start
use poc_cometbft.Mychain.Start.{AppSdk, App, new, init_chainer}
use poc_cometbft.Mychain.Starts.{AppLaws, new_order}
use poc_cometbft.Mychain.Manager.{Manager, ManagerLaws, init_modules-taskreg}
use poc_cometbft.Taskreg.Types.{IsTask, GenesisState}
use poc_cometbft.Taskreg.Store.{KvStoreService, StoreLaws, Codec, CodecLaws}
use poc_cometbft.Taskreg.Listing.{Ascending, IsTaskStore}
use poc_cometbft.Taskreg.RoundTrip.{HasNoTask}
use poc_cometbft.Taskreg.Module
use poc_cometbft.Taskreg.Module.{JsonCodec}
use poc_cometbft.Taskreg.Restored.{export-init_genesis_json}

module _ {t : AnteTypes} (s : AppSdk t) (al : AppLaws s) {kv : KvStoreService} (sl : StoreLaws kv)
    (m : Manager s kv) (j : JsonCodec) (cdc : Codec) (cl : CodecLaws cdc)
    (l : ManagerLaws s m j cdc) where
  -- `InitChainer` of an application that `New` made leaves in the task registry's store what the module's
  -- `InitGenesis` makes of its section of the genesis.
  pub init_chainer-taskreg :
      (app_opts : s.Options) (app : App s) (st st' : s.Store) (app_state : Bytes)
      (genesis : s.Genesis) (bz : Bytes)
      → new s true app_opts ≡ ok app
      → app.store ≡ some st
      → s.unmarshal_genesis app_state ≡ ok genesis
      → m.section genesis ModuleName.taskreg ≡ some bz
      → init_chainer s app app_state ≡ ok st'
      → Module.init_genesis j kv cdc (m.taskreg_store st) bz ≡ ok (m.taskreg_store st')
  unfolding init_chainer
  init_chainer-taskreg app_opts app st st' app_state genesis bz made held reads part e =
      init_modules-taskreg s m j cdc l order_init_genesis genesis st st' bz
        (each_once ModuleName.taskreg).4 part
        (l.in_order order_init_genesis st st' genesis
          (rw (reads, held, new_order s al true app_opts app made) at e))

  -- A genesis whose section for the task registry is the JSON of a state, which the codec reads back, with
  -- its tasks in the order of their ids, without repetition, and all fields in the ranges of their types,
  -- on an application that `New` made over a store where the keeper finds no task and every pair under the
  -- prefix of the tasks is one under its own key: behind an `InitChainer` that returned no error, an
  -- export of all modules that returns no error has this section unchanged.
  pub export-init_chainer :
      (app_opts : s.Options) (app : App s) (st st' : s.Store) (app_state : Bytes)
      (genesis : s.Genesis) (gs : GenesisState) (bz : Bytes) (for_zero_height : Bool)
      (jail_allowed_addrs : List Bytes) (exported : Bytes)
      → new s true app_opts ≡ ok app
      → app.store ≡ some st
      → s.unmarshal_genesis app_state ≡ ok genesis
      → m.section genesis ModuleName.taskreg ≡ some bz
      → j.marshal_json gs ≡ ok bz
      → j.unmarshal_json bz ≡ ok gs
      → IsTaskStore kv sl cdc cl (m.taskreg_store st)
      → HasNoTask kv sl cdc cl (m.taskreg_store st)
      → All IsTask gs.tasks
      → Ascending gs.tasks
      → IsU64 gs.next_task_id
      → init_chainer s app app_state ≡ ok st'
      → Start.export_app_state_and_validators s
          (record app { store = some st' })
          for_zero_height
          jail_allowed_addrs
          []
        ≡ ok exported
      → (genesis' : s.Genesis) × (s.marshal_indent genesis' ≡ ok exported)
        × (m.section genesis' ModuleName.taskreg ≡ some bz)
  unfolding Start.export_app_state_and_validators
  export-init_chainer app_opts app st st' app_state genesis gs bz for_zero_height jail_allowed_addrs
        exported made held reads part writes reads_back holds empty h a hn e out =
      let (genesis', given, indented) =
        >>=-eq-ok (s.export_genesis_for_modules st' []) _ (rw (l.context_lem st') at out) in
      let (bz', gives, part') = l.taskreg_export st' genesis' given in
      let init =
        init_chainer-taskreg app_opts app st st' app_state genesis bz made held reads part e in
      let back =
        export-init_genesis_json j kv sl cdc cl (m.taskreg_store st) gs bz writes reads_back holds
          empty h a hn in
      (
        genesis',
        wrap_ok (bytes "failed to marshal app state: ") _ exported indented,
        part' ∙ ap some (ok-injective (sym gives ∙ (rw init at back))),
      )
