-- ===== src/Mychain/Manager.antt =====
-- The part of the module manager in the chain's genesis and export, as its documentation has it, with
-- the task registry as one of its modules: see mychain/app/app.go, and mychain/x/taskreg/module.go.
use poc_cometbft.Prelude.{
  ◌≡◌, ◌≢◌, refl, sym, ap, ◌∙◌, arith, Bool, List, [], ◌∷◌, Option, none, some, Outcome, ok, ◌>>=◌,
  >>=-eq-ok, ok-injective, ◌⊎◌, inl, inr,
}
use poc_cometbft.Bytes.{Bytes}
use poc_cometbft.Mychain.Names.{ModuleName, count, same_name}
use poc_cometbft.Mychain.Ante.{AnteTypes}
use poc_cometbft.Mychain.Start.{AppSdk}
use poc_cometbft.Taskreg.Store.{KvStoreService, Codec}
use poc_cometbft.Taskreg.Module
use poc_cometbft.Taskreg.Module.{JsonCodec}

-- What the manager works on: the sections of a genesis, the store of the task registry in that of the
-- chain, and a module's `InitGenesis`.
pub record Manager {t : AnteTypes} (s : AppSdk t) (kv : KvStoreService) : Type 0 where
  pub section : s.Genesis → ModuleName → Option Bytes
  pub taskreg_store : s.Store → kv.Store
  pub module_init : ModuleName → s.Store → Bytes → Outcome Bytes s.Store

module _ {t : AnteTypes} (s : AppSdk t) {kv : KvStoreService} (m : Manager s kv) where
  unfoldable pub init_section : ModuleName → Option Bytes → s.Store → Outcome Bytes s.Store
  init_section name none st = ok st
  init_section name (some bz) st = m.module_init name st bz

  -- `InitGenesis` of the modules in their order, each with its section, where it has one.
  unfoldable pub init_modules : List ModuleName → s.Genesis → s.Store → Outcome Bytes s.Store
  unfolding init_section
  init_modules [] genesis st = ok st
  init_modules (name ∷ names) genesis st = do
    st' ← init_section name (m.section genesis name) st
    init_modules names genesis st'

-- The manager returns the store that the modules leave, if it returns no error. Modules have their own
-- stores: those but the task registry leave its store as it is, and its own is what its `InitGenesis`
-- makes. A context is made on the store that was loaded. An export of all modules has what `ExportGenesis` of the task registry returns.
pub record ManagerLaws {t : AnteTypes} (s : AppSdk t) {kv : KvStoreService} (m : Manager s kv)
    (j : JsonCodec) (cdc : Codec) : Type 0 where
  pub in_order :
      (order : List ModuleName) (st st' : s.Store) (genesis : s.Genesis)
      → s.init_genesis order (some st) genesis ≡ ok st'
      → init_modules s m order genesis st ≡ ok st'
  pub own_store :
      (name : ModuleName) (st st' : s.Store) (bz : Bytes)
      → name ≢ ModuleName.taskreg
      → m.module_init name st bz ≡ ok st'
      → m.taskreg_store st' ≡ m.taskreg_store st
  pub taskreg_init :
      (st st' : s.Store) (bz : Bytes)
      → m.module_init ModuleName.taskreg st bz ≡ ok st'
      → Module.init_genesis j kv cdc (m.taskreg_store st) bz ≡ ok (m.taskreg_store st')
  pub context_lem : (st : s.Store) → s.new_context (some st) ≡ ok st
  pub taskreg_export :
      (st : s.Store) (genesis : s.Genesis)
      → s.export_genesis_for_modules st [] ≡ ok genesis
      → (bz : Bytes) × (Module.export_genesis j kv cdc (m.taskreg_store st) ≡ ok bz)
        × (m.section genesis ModuleName.taskreg ≡ some bz)

-- A module is the task registry, or has another name.
pub taskreg_or_not :
    (name : ModuleName)
    → (name ≡ ModuleName.taskreg)
      ⊎ ((name ≢ ModuleName.taskreg) × (same_name ModuleName.taskreg name ≡ Bool.false))
taskreg_or_not ModuleName.taskreg = inl refl
taskreg_or_not _ = inr (λ e. cc, refl)

module _ {t : AnteTypes} (s : AppSdk t) {kv : KvStoreService} (m : Manager s kv) (j : JsonCodec)
    (cdc : Codec) (l : ManagerLaws s m j cdc) where
  init_section-store :
      (name : ModuleName) (part : Option Bytes) (st st' : s.Store)
      → name ≢ ModuleName.taskreg
      → init_section s m name part st ≡ ok st'
      → m.taskreg_store st' ≡ m.taskreg_store st
  unfolding init_section
  init_section-store name none st st' other e = ap m.taskreg_store (sym (ok-injective e))
  init_section-store name (some bz) st st' other e = l.own_store name st st' bz other e

  init_modules-store :
      (names : List ModuleName) (genesis : s.Genesis) (st st' : s.Store)
      → count ModuleName.taskreg names ≡ 0
      → init_modules s m names genesis st ≡ ok st'
      → m.taskreg_store st' ≡ m.taskreg_store st
  unfolding init_modules
  init_modules-store [] genesis st st' c e = ap m.taskreg_store (sym (ok-injective e))
  init_modules-store (name ∷ names) genesis st st' c e =
      let (st1, first, later) = >>=-eq-ok (init_section s m name (m.section genesis name) st) _ e in
      elim (taskreg_or_not name) [
        | inl same ↦ absurd (omega (arith, rw same at c))
        | inr (other, apart) ↦
            init_modules-store names genesis st1 st' (rw apart at c) later
            ∙ init_section-store name (m.section genesis name) st st1 other first
      ]

  -- Where the task registry stands once in the order, its store is what its `InitGenesis` makes of the
  -- store before and its section.
  pub init_modules-taskreg :
      (names : List ModuleName) (genesis : s.Genesis) (st st' : s.Store) (bz : Bytes)
      → count ModuleName.taskreg names ≡ 1
      → m.section genesis ModuleName.taskreg ≡ some bz
      → init_modules s m names genesis st ≡ ok st'
      → Module.init_genesis j kv cdc (m.taskreg_store st) bz ≡ ok (m.taskreg_store st')
  unfolding init_modules init_section
  init_modules-taskreg [] genesis st st' bz c part e = absurd (omega (arith, c))
  init_modules-taskreg (name ∷ names) genesis st st' bz c part e =
      let (st1, first, later) = >>=-eq-ok (init_section s m name (m.section genesis name) st) _ e in
      elim (taskreg_or_not name) [
        | inl same ↦
            l.taskreg_init st st1 bz (rw (same, part) at first)
            ∙ ap ok
                (sym (init_modules-store names genesis st1 st' (omega (arith, rw same at c)) later))
        | inr (other, apart) ↦
            ap (λ store. Module.init_genesis j kv cdc store bz)
              (sym (init_section-store name (m.section genesis name) st st1 other first))
            ∙ init_modules-taskreg names genesis st1 st' bz (rw apart at c) part later
      ]
