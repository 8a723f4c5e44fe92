-- ===== src/Taskreg/RoundTrip.antt =====
-- The keeper's writes keep the store one of tasks; genesis state goes around unchanged.
use mathlib.Core.Path.{subst}
use mathlib.Core.Option.{some-injective}
use poc_cometbft.Prelude.{
  ℕ, ◌<◌, ◌≡◌, ◌≢◌, ◌⊎◌, refl, sym, ap, ◌∙◌, List, [], ◌∷◌, true, false, Option, none, some,
  Outcome, ok, if◌then◌else◌, ◌==◌, ==_iff, arith, inl, inr, Bool-cases, All,
}
use poc_cometbft.Bytes.{Bytes, bytes_eq, bytes_eq_iff}
use poc_cometbft.Bytes.BigEndian.{IsU64, put_uint64}
use poc_cometbft.Kv.{lookup}
use poc_cometbft.Kv.Laws.{lookup-insert}
use poc_cometbft.Taskreg.Types.{Task, IsTask, GenesisState, Error, key_task, task_count_key}
use poc_cometbft.Taskreg.Store.{KvStoreService, StoreLaws, Codec, CodecLaws}
use poc_cometbft.Taskreg.Keeper
use poc_cometbft.Taskreg.Keeper.{has_prefix, matches}
use poc_cometbft.Taskreg.Listing.{find, Ascending, IsTaskStore, HoldsTask, iterate_tasks_lem}
use poc_cometbft.Taskreg.Genesis
use poc_cometbft.Taskreg.Import.{or_stored, Distinct, validate_iff, init_genesis_lem}
use poc_cometbft.Taskreg.Genesis.{has_id, validate_tasks, validate, duplicate}

module _ (s : KvStoreService) (sl : StoreLaws s) (cdc : Codec) (cl : CodecLaws cdc) where
  count_key-HoldsTask : (v : Bytes) → HoldsTask cdc task_count_key v
  unfolding has_prefix matches
  count_key-HoldsTask v h = cc

  set_task-IsTaskStore :
      (st : s.Store) (t : Task)
      → IsTask t
      → IsTaskStore s sl cdc cl st
      → IsTaskStore s sl cdc cl (Keeper.set_task s cdc st t)
  unfolding Keeper.set_task
  set_task-IsTaskStore st t h holds k v e has = elim (Bool-cases (bytes_eq (key_task t.id) k)) [
    | inl same ↦ (
      t,
      h,
      sym ((bytes_eq_iff _ _).0 same),
      some-injective _ _ (sym e ∙ written t k ∙ rw same refl),
    )
    | inr other ↦ holds k v (sym (written t k ∙ rw other refl) ∙ e) has
  ]
    where
      written :
          (t : Task) (k : Bytes)
          → lookup k (sl.pairs (s.set st (key_task t.id) (cdc.marshal t)))
            ≡ (if bytes_eq (key_task t.id) k then some (cdc.marshal t) else lookup k (sl.pairs st))
      written t k =
          ap (lookup k) (sl.set_lem st (key_task t.id) (cdc.marshal t))
          ∙ lookup-insert (key_task t.id) k (cdc.marshal t) (sl.pairs st)

  set_next-IsTaskStore :
      (st : s.Store) (n : ℕ)
      → IsTaskStore s sl cdc cl st
      → IsTaskStore s sl cdc cl (Keeper.set_next_task_id s cdc st n)
  unfolding Keeper.set_next_task_id
  set_next-IsTaskStore st n holds k v e has = elim (Bool-cases (bytes_eq task_count_key k)) [
    | inl same ↦
        subst (λ j. HoldsTask cdc j v) ((bytes_eq_iff task_count_key k).0 same)
          (count_key-HoldsTask v) has
    | inr other ↦ holds k v (sym (written k ∙ rw other refl) ∙ e) has
  ]
    where
      written :
          (k : Bytes)
          → lookup k (sl.pairs (s.set st task_count_key (put_uint64 n)))
            ≡ (if bytes_eq task_count_key k then some (put_uint64 n) else lookup k (sl.pairs st))
      written k =
          ap (lookup k) (sl.set_lem st task_count_key (put_uint64 n))
          ∙ lookup-insert task_count_key k (put_uint64 n) (sl.pairs st)

  pub set_tasks-IsTaskStore :
      (ts : List Task) (st : s.Store)
      → All IsTask ts
      → IsTaskStore s sl cdc cl st
      → IsTaskStore s sl cdc cl (Genesis.set_tasks s cdc st ts)
  unfolding Genesis.set_tasks
  set_tasks-IsTaskStore [] st h holds = holds
  set_tasks-IsTaskStore (t ∷ ts) st h holds =
      set_tasks-IsTaskStore ts (Keeper.set_task s cdc st t) h.1
        (set_task-IsTaskStore st t h.0 holds)

-- Lists in the order of the ids are determined by what is found in them.
find_above : (id : ℕ) (ts : List Task) → All (λ u. id < u.id) ts → find id ts ≡ none
unfolding find
find_above id [] h = refl
find_above id (t ∷ ts) h = ground (arith, find_above id ts)

Ascending-Distinct : (ts : List Task) → Ascending ts → Distinct ts
Ascending-Distinct [] a = tt
Ascending-Distinct (t ∷ ts) a = (apart t.id ts a.0, Ascending-Distinct ts a.1)
  where
    apart : (id : ℕ) (us : List Task) → All (λ u. id < u.id) us → All (λ u. id ≢ u.id) us
    apart id [] h = tt
    apart id (u ∷ us) h = ((λ e. absurd (omega (arith, h.0))), apart id us h.1)

none-ne-task : {t : Task} → none ≡ some t → ⊥
none-ne-task h = cc

true-ne-false : true ≡ false → ⊥
true-ne-false h = cc

find_head : (t : Task) (ts : List Task) → find t.id (t ∷ ts) ≡ some t
unfolding find
find_head t ts = ground (arith, ==_iff t.id t.id)

find_other : (id : ℕ) (t : Task) (ts : List Task) → t.id ≢ id → find id (t ∷ ts) ≡ find id ts
unfolding find
find_other id t ts ne = ground (arith, ==_iff t.id id)

above_above :
    (id jd : ℕ) (ts : List Task) → id < jd → All (λ u. jd < u.id) ts → All (λ u. id < u.id) ts
above_above id jd [] l h = tt
above_above id jd (u ∷ us) l h = (omega (arith, l, h.0), above_above id jd us l h.1)

lesser_absent :
    (t u : Task) (us : List Task) → t.id < u.id → Ascending (u ∷ us) → find t.id (u ∷ us) ≡ none
lesser_absent t u us l a = find_above t.id (u ∷ us) (l, above_above t.id u.id us l a.0)

ℕ-cases : (a b : ℕ) → (a < b) ⊎ (b < a) ⊎ (a ≡ b)
ℕ-cases a b = omega arith

same_tail :
    (t : Task) (ts us : List Task)
    → All (λ u. t.id < u.id) ts
    → All (λ u. t.id < u.id) us
    → ((id : ℕ) → IsU64 id → find id (t ∷ ts) ≡ find id (t ∷ us))
    → (id : ℕ) → IsU64 id
    → find id ts ≡ find id us
same_tail t ts us a b h id hid = elim (Bool-cases (t.id == id)) [
  | inl same ↦
      let e : t.id ≡ id = (==_iff t.id id).0 same in
      subst (λ j. find j ts ≡ find j us) e (find_above t.id ts a ∙ sym (find_above t.id us b))
  | inr other ↦
      let ne : t.id ≢ id = λ e. absurd (true-ne-false (sym ((==_iff t.id id).1 e) ∙ other)) in
      sym (find_other id t ts ne) ∙ h id hid ∙ find_other id t us ne
]

same_first :
    (t u : Task) (ts us : List Task) → t.id ≡ u.id → find t.id (t ∷ ts) ≡ find t.id (u ∷ us) → t ≡ u
same_first t u ts us e h =
    some-injective _ _
      (sym (find_head t ts) ∙ h ∙ subst (λ j. find j (u ∷ us) ≡ some u) (sym e) (find_head u us))

Ascending-ext :
    (ts us : List Task)
    → All IsTask ts
    → All IsTask us
    → Ascending ts
    → Ascending us
    → ((id : ℕ) → IsU64 id → find id ts ≡ find id us)
    → ts ≡ us
unfolding find
Ascending-ext [] [] p q a b h = refl
Ascending-ext [] (u ∷ us) p q a b h = absurd (none-ne-task (h u.id (q.0).id_range ∙ find_head u us))
Ascending-ext (t ∷ ts) [] p q a b h =
    absurd (none-ne-task (sym (h t.id (p.0).id_range) ∙ find_head t ts))
Ascending-ext (t ∷ ts) (u ∷ us) p q a b h = elim (ℕ-cases t.id u.id) [
  | inl below ↦ absurd (
      none-ne-task
        (sym (lesser_absent t u us below b) ∙ sym (h t.id (p.0).id_range) ∙ find_head t ts))
  | inr (inl above) ↦
      absurd
        (none-ne-task (sym (lesser_absent u t ts above a) ∙ h u.id (q.0).id_range ∙ find_head u us))
  | inr (inr same) ↦
      let e : t ≡ u = same_first t u ts us same (h t.id (p.0).id_range) in
      ap (λ vs. t ∷ vs)
        (Ascending-ext ts us p.1 q.1 a.1 b.1 (
          same_tail t ts us a.0 (subst (λ v. All (λ w. v.id < w.id) us) (sym e) b.0)
            (λ id hid. h id hid ∙ ap (λ v. find id (v ∷ us)) (sym e))))
      ∙ ap (λ v. v ∷ us) e
]

found_ok : (o p : Option Task) → ◌≡◌ {A = Outcome Error (Option Task)} (ok o) (ok p) → o ≡ p
found_ok o p h = cc

module _ (s : KvStoreService) (sl : StoreLaws s) (cdc : Codec) (cl : CodecLaws cdc) where
  -- A store in which the keeper finds no task.
  abbrev pub HasNoTask : s.Store → Type 0
  HasNoTask st = (id : ℕ) → IsU64 id → Keeper.get_task s cdc st id ≡ ok none

  or_nothing : (o : Option Task) → or_stored o (ok none) ≡ ok o
  or_nothing none = refl
  or_nothing (some t) = refl

  -- `ExportGenesis` returns the genesis that `InitGenesis` put into a store where the keeper finds
  -- no task and every pair under the prefix of the tasks is one under its own key, if the genesis has its
  -- tasks in the order of their ids, without repetition, and all fields in the ranges of their types.
  pub export-init_genesis :
      (st : s.Store) (gs : GenesisState)
      → IsTaskStore s sl cdc cl st
      → HasNoTask st
      → All IsTask gs.tasks
      → Ascending gs.tasks
      → IsU64 gs.next_task_id
      → Genesis.export_genesis s cdc (Genesis.init_genesis s cdc st gs) ≡ ok gs
  unfolding Genesis.init_genesis Genesis.export_genesis
  export-init_genesis st gs holds empty h a hn =
      let st' : s.Store = Genesis.init_genesis s cdc st gs in
      let v : validate gs ≡ ok tt = (validate_iff gs).1 (Ascending-Distinct gs.tasks a) in
      let (ts, visits, in_range, rising, finds) = iterate_tasks_lem s sl cdc cl st' (
        set_next-IsTaskStore s sl cdc cl _ gs.next_task_id
          (set_tasks-IsTaskStore s sl cdc cl gs.tasks st h holds)) in
      let same : ts ≡ gs.tasks = Ascending-ext ts gs.tasks in_range h rising a (λ id hid.
        found_ok _ _ (
          sym (finds id hid)
          ∙ (init_genesis_lem s sl cdc cl st gs id v h hn hid).0
          ∙ ap (or_stored (find id gs.tasks)) (empty id hid)
          ∙ or_nothing (find id gs.tasks))) in
      rw (visits, (init_genesis_lem s sl cdc cl st gs 0 v h hn (omega arith)).1, same) refl
