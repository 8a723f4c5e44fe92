-- ===== src/Taskreg/Listing.antt =====
-- What `IterateTasks` visits: every stored task once, in the order of the ids.
use mathlib.Core.Path.{subst}
use mathlib.Core.List.{append-nil, append_assoc}
use poc_cometbft.Prelude.{
  ℕ, ◌<◌, ◌≡◌, ◌≢◌, ◌⊎◌, refl, sym, ap, ◌∙◌, List, [], ◌∷◌, ◌++◌, true, false, Option, none, some,
  Outcome, ok, Ordering, if◌then◌else◌, ◌==◌, arith, inl, inr, Bool-cases, All,
}
use poc_cometbft.Bytes.{Bytes, bytes_eq_iff, bytes_eq_refl}
use poc_cometbft.Bytes.Order.{compare_bytes, Below}
use poc_cometbft.Bytes.BigEndian.{IsU64}
use poc_cometbft.Kv.{Kv, lookup, from, Above, IsSorted}
use poc_cometbft.Kv.Laws.{lookup-Above}
use poc_cometbft.Taskreg.Types.{Task, IsTask, Error, key_task, task_key_prefix}
use poc_cometbft.Taskreg.Store.{KvStoreService, StoreLaws, Codec, CodecLaws}
use poc_cometbft.Taskreg.Keeper
use poc_cometbft.Taskreg.Keeper.{has_prefix}
use poc_cometbft.Taskreg.Access.{key_task_eq}
use poc_cometbft.Taskreg.Prefix.{
  key_task-has_prefix, has_prefix-behind, key_task-at_prefix, key_task-Below, NotBefore,
  from-NotBefore, from-IsSorted, lookup-from,
}

Ordering-cases : (o : Ordering) → (o ≡ Ordering.lt) ⊎ (o ≡ Ordering.eq) ⊎ (o ≡ Ordering.gt)
Ordering-cases Ordering.lt = inl refl
Ordering-cases Ordering.eq = inr (inl refl)
Ordering-cases Ordering.gt = inr (inr refl)

-- The task with an id.
unfoldable pub find : ℕ → List Task → Option Task
find id [] = none
find id (t ∷ ts) = if t.id == id then some t else find id ts

-- The ids rise from each task to the next.
abbrev pub Ascending : List Task → Type 0
Ascending [] = Unit
Ascending (t ∷ ts) = All (λ u. t.id < u.id) ts × Ascending ts

module _ (cdc : Codec) where
  -- A pair under the prefix of the tasks is a task under its own key.
  abbrev pub HoldsTask : Bytes → Bytes → Type 0
  HoldsTask k v =
      has_prefix task_key_prefix k ≡ true
      → (t : Task) × IsTask t × (k ≡ key_task t.id) × (v ≡ cdc.marshal t)

  abbrev pub HoldsTasks : Kv → Type 0
  HoldsTasks [] = Unit
  HoldsTasks ((k, v) ∷ m) = HoldsTask k v × HoldsTasks m

  abbrev marshalled : Option Task → Option Bytes
  marshalled none = none
  marshalled (some t) = some (cdc.marshal t)

  -- What the list of the visited tasks is to the pairs.
  record Lists (m : Kv) (ts : List Task) : Type 0 where
    in_range : All IsTask ts
    ascending : Ascending ts
    behind : (k : Bytes) → Above k m → All (λ u. Below k (key_task u.id)) ts
    finds : (id : ℕ) → IsU64 id → lookup (key_task id) m ≡ marshalled (find id ts)

  above_others :
      (t : Task) (ts : List Task)
      → IsTask t
      → All IsTask ts
      → All (λ u. Below (key_task t.id) (key_task u.id)) ts
      → All (λ u. t.id < u.id) ts
  above_others t [] h hs b = tt
  above_others t (u ∷ ts) h hs b =
      (key_task-Below t.id u.id h.id_range (hs.0).id_range b.0, above_others t ts h hs.1 b.1)

  -- Where the loop stops, no task is left.
  none_behind :
      (k : Bytes) (m : Kv)
      → has_prefix task_key_prefix k ≡ false
      → compare_bytes k task_key_prefix ≢ Ordering.lt
      → Above k m
      → (id : ℕ) → lookup (key_task id) m ≡ none
  unfolding lookup
  none_behind k [] lacks start a id = refl
  none_behind k ((j, v) ∷ m) lacks start a id = ground (
    arith,
    none_behind k m lacks start a.1 id,
    has_prefix-behind task_key_prefix k j lacks start a.0,
    bytes_eq_iff j (key_task id),
    key_task-has_prefix id,
  )

  stop-Lists :
      (k v : Bytes) (m : Kv)
      → has_prefix task_key_prefix k ≡ false
      → compare_bytes k task_key_prefix ≢ Ordering.lt
      → Above k m
      → Lists ((k, v) ∷ m) []
  unfolding lookup find
  stop-Lists k v m lacks start a = record {
    in_range = tt;
    ascending = tt;
    behind = λ j b. tt;
    finds = λ id hid. ground (
      arith,
      none_behind k m lacks start a id,
      bytes_eq_iff k (key_task id),
      key_task-has_prefix id,
    );
  }

  cons-Lists :
      (k v : Bytes) (m : Kv) (t : Task) (ts : List Task)
      → IsTask t
      → k ≡ key_task t.id
      → v ≡ cdc.marshal t
      → Above k m
      → Lists m ts
      → Lists ((k, v) ∷ m) (t ∷ ts)
  unfolding lookup find
  cons-Lists k v m t ts h e f a l = record {
    in_range = (h, l.in_range);
    ascending = (
      above_others t ts h l.in_range
          (subst (λ j. All (λ u. Below j (key_task u.id)) ts) e (l.behind k a)),
      l.ascending,
    );
    behind = λ j b. (subst (Below j) e b.0, l.behind j b.1);
    finds = λ id hid. ground (arith, l.finds id hid, key_task_eq t.id id h.id_range hid);
  }

module _ (cdc : Codec) where
  HoldsTasks-sorted :
      (m : Kv)
      → IsSorted m
      → ((k v : Bytes) → lookup k m ≡ some v → HoldsTask cdc k v)
      → HoldsTasks cdc m
  unfolding lookup
  HoldsTasks-sorted [] sorted h = tt
  HoldsTasks-sorted ((j, w) ∷ m) sorted h = (
    h j w (ground (arith, bytes_eq_refl j)),
    HoldsTasks-sorted m sorted.1
        (λ k v e. h k v (ground (arith, bytes_eq_iff j k, lookup-Above j m sorted.0))),
  )

  HoldsTasks-from : (start : Bytes) (m : Kv) → HoldsTasks cdc m → HoldsTasks cdc (from start m)
  unfolding from
  HoldsTasks-from start [] h = tt
  HoldsTasks-from start ((j, w) ∷ m) h = elim (Ordering-cases (compare_bytes j start)) [
    | inl below ↦ rw (below, from) (HoldsTasks-from start m h.1)
    | inr (inl same) ↦ rw (same, from) (h.0, HoldsTasks-from start m h.1)
    | inr (inr above) ↦ rw (above, from) (h.0, HoldsTasks-from start m h.1)
  ]

module _ (s : KvStoreService) (cdc : Codec) (cl : CodecLaws cdc) where
  abbrev visit : Kv → List Task → Outcome Error (List Task)
  visit = Keeper.iterate_pairs s cdc (Keeper.collect s cdc)

  visit_stop :
      (k v : Bytes) (m : Kv) (acc : List Task)
      → has_prefix task_key_prefix k ≡ false
      → visit ((k, v) ∷ m) acc ≡ ok (acc ++ [])
  unfolding Keeper.iterate_pairs
  visit_stop k v m acc lacks = rw (lacks, append-nil) refl

  visit_task :
      (k v : Bytes) (m : Kv) (acc : List Task) (t : Task)
      → has_prefix task_key_prefix k ≡ true
      → IsTask t
      → v ≡ cdc.marshal t
      → visit ((k, v) ∷ m) acc ≡ visit m (acc ++ (t ∷ []))
  unfolding Keeper.iterate_pairs Keeper.must_unmarshal
  visit_task k v m acc t has h e = ground (arith, cl.unmarshal-marshal t h)

  visit_lem :
      (m : Kv)
      → IsSorted m
      → NotBefore task_key_prefix m
      → HoldsTasks cdc m
      → (ts : List Task) × ((acc : List Task) → visit m acc ≡ ok (acc ++ ts)) × Lists cdc m ts
  unfolding lookup find Keeper.iterate_pairs
  visit_lem [] sorted start holds = (
    [],
    λ acc. ap ok (sym (append-nil acc)),
    record { in_range = tt; ascending = tt; behind = λ j b. tt; finds = λ id hid. refl },
  )
  visit_lem ((k, v) ∷ m) sorted start holds = elim (Bool-cases (has_prefix task_key_prefix k)) [
    | inr lacks ↦
        ([], λ acc. visit_stop k v m acc lacks, stop-Lists cdc k v m lacks start.0 sorted.0)
    | inl has ↦
        let (t, h, e, f) = holds.0 has in
        let (ts, visits, lists) = visit_lem m sorted.1 start.1 holds.1 in
        (
          t ∷ ts,
          λ acc.
              visit_task k v m acc t has h f
              ∙ visits (acc ++ (t ∷ []))
              ∙ ap ok (append_assoc acc (t ∷ []) ts),
          cons-Lists cdc k v m t ts h e f sorted.0 lists,
        )
  ]

module _ (s : KvStoreService) (sl : StoreLaws s) (cdc : Codec) (cl : CodecLaws cdc) where
  -- Every pair under the prefix of the tasks is a task under its own key.
  abbrev pub IsTaskStore : s.Store → Type 0
  IsTaskStore st = (k v : Bytes) → lookup k (sl.pairs st) ≡ some v → HoldsTask cdc k v

  read_found :
      (ts : List Task) (id : ℕ)
      → All IsTask ts
      → Keeper.read_task s cdc (ok (marshalled cdc (find id ts))) ≡ ok (find id ts)
  unfolding Keeper.read_task Keeper.must_unmarshal find
  read_found [] id h = refl
  read_found (t ∷ ts) id h = elim (Bool-cases (t.id == id)) [
    | inl same ↦ rw same (ground (arith, cl.unmarshal-marshal t h.0))
    | inr other ↦ rw other (read_found ts id h.1)
  ]

  -- On a store whose pairs under the prefix of the tasks are tasks under their own keys, `IterateTasks`
  -- visits the stored tasks, each once and by rising id: with the task of each id it
  -- visits what `GetTask` finds there.
  pub iterate_tasks_lem :
      (st : s.Store)
      → IsTaskStore st
      → (ts : List Task) × (Keeper.iterate_tasks s cdc (Keeper.collect s cdc) st [] ≡ ok ts)
        × All IsTask ts
        × Ascending ts
        × ((id : ℕ) → IsU64 id → Keeper.get_task s cdc st id ≡ ok (find id ts))
  unfolding Keeper.iterate_tasks Keeper.get_task
  iterate_tasks_lem st holds =
      let m : Kv = sl.pairs st in
      let sorted : IsSorted m = sl.pairs-IsSorted st in
      let (ts, visits, lists) =
        visit_lem s cdc cl (from task_key_prefix m) (from-IsSorted task_key_prefix m sorted)
          (from-NotBefore task_key_prefix m)
          (HoldsTasks-from cdc task_key_prefix m (HoldsTasks-sorted cdc m sorted holds)) in
      (
        ts,
        rw (sl.iterator_lem st task_key_prefix) (visits []),
        lists.in_range,
        lists.ascending,
        λ id hid.
            ap (Keeper.read_task s cdc) (
              sl.get_lem st (key_task id)
              ∙ ap ok (
                  sym (lookup-from task_key_prefix (key_task id) m (key_task-at_prefix id))
                  ∙ lists.finds id hid))
            ∙ read_found ts id lists.in_range,
      )
