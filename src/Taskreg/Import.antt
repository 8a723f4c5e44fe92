-- ===== src/Taskreg/Import.antt =====
-- Genesis: what `Validate` accepts, what `InitGenesis` stores, and its round trip with `ExportGenesis`.
use poc_cometbft.Prelude.{
  ℕ, ◌≡◌, ◌≢◌, ◌↔◌, refl, ◌∙◌, List, [], ◌∷◌, false, Option, none, some, Outcome, ok, ==_iff, arith,
  inl, inr, Bool-cases, All,
}
use poc_cometbft.Bytes.BigEndian.{IsU64}
use poc_cometbft.Taskreg.Types.{Task, IsTask, GenesisState, Error}
use poc_cometbft.Taskreg.Store.{KvStoreService, StoreLaws, Codec, CodecLaws}
use poc_cometbft.Taskreg.Keeper
use poc_cometbft.Taskreg.Keeper.{has_prefix, matches}
use poc_cometbft.Taskreg.Access.{
  get_task-set_task, get_task-set_next_task_id, next-set_next_task_id,
}
use poc_cometbft.Taskreg.Listing.{find}
use poc_cometbft.Taskreg.Genesis
use poc_cometbft.Taskreg.Genesis.{has_id, validate_tasks, validate, duplicate}

-- No two of the tasks have one id.
abbrev pub Distinct : List Task → Type 0
Distinct [] = Unit
Distinct (t ∷ ts) = All (λ u. t.id ≢ u.id) ts × Distinct ts

-- None of the tasks has one of the ids.
abbrev Apart : List ℕ → List Task → Type 0
Apart ids = All (λ u. has_id u.id ids ≡ false)

cons-Apart :
    (id : ℕ) (ids : List ℕ) (ts : List Task)
    → All (λ u. id ≢ u.id) ts
    → Apart ids ts
    → Apart (id ∷ ids) ts
unfolding has_id
cons-Apart id ids [] d a = tt
cons-Apart id ids (t ∷ ts) d a = ground (arith, cons-Apart id ids ts)

Apart-cons :
    (id : ℕ) (ids : List ℕ) (ts : List Task)
    → Apart (id ∷ ids) ts
    → All (λ u. id ≢ u.id) ts × Apart ids ts
unfolding has_id
Apart-cons id ids [] a = (tt, tt)
Apart-cons id ids (t ∷ ts) a = ground (arith, Apart-cons id ids ts)

validates :
    (ids : List ℕ) (ts : List Task) → Apart ids ts → Distinct ts → validate_tasks ids ts ≡ ok tt
unfolding validate_tasks
validates ids [] a d = refl
validates ids (t ∷ ts) a d = rw a.0 (validates (t.id ∷ ids) ts (cons-Apart t.id ids ts d.0 a.1) d.1)

validated :
    (ids : List ℕ) (ts : List Task) → validate_tasks ids ts ≡ ok tt → Apart ids ts × Distinct ts
unfolding validate_tasks
validated ids [] h = (tt, tt)
validated ids (t ∷ ts) h = elim (Bool-cases (has_id t.id ids)) [
  | inl seen ↦ cc (rw seen at h)
  | inr new ↦
      let (apart, distinct) = validated (t.id ∷ ids) ts (rw new at h) in
      let (others, apart') = Apart-cons t.id ids ts apart in ((new, apart'), (others, distinct))
]

no_ids : (ts : List Task) → Apart [] ts
unfolding has_id
no_ids [] = tt
no_ids (t ∷ ts) = (refl, no_ids ts)

-- `Validate` accepts a genesis exactly when no two of its tasks have one id.
pub validate_iff : (gs : GenesisState) → (validate gs ≡ ok tt) ↔ Distinct gs.tasks
unfolding validate
validate_iff gs =
    ((λ h. (validated [] gs.tasks h).1), (λ d. validates [] gs.tasks (no_ids gs.tasks) d))

find-none : (id : ℕ) (ts : List Task) → All (λ u. id ≢ u.id) ts → find id ts ≡ none
unfolding find
find-none id [] h = refl
find-none id (t ∷ ts) h = ground (arith, find-none id ts)

-- What is found among the tasks, or else what the store had.
abbrev pub or_stored : Option Task → Outcome Error (Option Task) → Outcome Error (Option Task)
or_stored none old = old
or_stored (some t) old = ok (some t)

module _ (s : KvStoreService) (sl : StoreLaws s) (cdc : Codec) (cl : CodecLaws cdc) where
  get_task-set_tasks :
      (ts : List Task) (st : s.Store) (id : ℕ)
      → All IsTask ts
      → Distinct ts
      → IsU64 id
      → Keeper.get_task s cdc (Genesis.set_tasks s cdc st ts) id
        ≡ or_stored (find id ts) (Keeper.get_task s cdc st id)
  unfolding Genesis.set_tasks find
  get_task-set_tasks [] st id h d hid = refl
  get_task-set_tasks (t ∷ ts) st id h d hid =
      get_task-set_tasks ts (Keeper.set_task s cdc st t) id h.1 d.1 hid
      ∙ ground (
        arith,
        get_task-set_task s sl cdc cl st t id h.0 hid,
        find-none t.id ts d.0,
        ==_iff t.id id,
      )

  -- `InitGenesis` of a genesis that `Validate` accepts, with fields in the ranges of their types, makes
  -- the keeper find each of its tasks, over what the store had, and its next id.
  pub init_genesis_lem :
      (st : s.Store) (gs : GenesisState) (id : ℕ)
      → validate gs ≡ ok tt
      → All IsTask gs.tasks
      → IsU64 gs.next_task_id
      → IsU64 id
      → (Keeper.get_task s cdc (Genesis.init_genesis s cdc st gs) id
          ≡ or_stored (find id gs.tasks) (Keeper.get_task s cdc st id))
        × (Keeper.get_next_task_id s cdc (Genesis.init_genesis s cdc st gs) ≡ ok gs.next_task_id)
  unfolding Genesis.init_genesis
  init_genesis_lem st gs id v h hn hid = (
    get_task-set_next_task_id s sl cdc cl _ gs.next_task_id id
        ∙ get_task-set_tasks gs.tasks st id h ((validate_iff gs).0 v) hid,
    next-set_next_task_id s sl cdc cl _ gs.next_task_id hn,
  )
