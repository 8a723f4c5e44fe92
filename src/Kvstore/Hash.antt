-- ===== src/Kvstore/Hash.antt =====
-- `State.Hash` is a function of the clients' data alone.
use mathlib.Core.List.{append_assoc}
use poc_cometbft.Prelude.{
  ℕ, List, [], ◌∷◌, ◌++◌, ◌≡◌, refl, ap, sym, ◌∙◌, false, none, map, Outcome, ok, if◌then◌else◌,
  arith, inl, inr, Bool-cases,
}
use poc_cometbft.Bytes.{Bytes, bytes_eq_iff}
use poc_cometbft.Kv.{Kv, lookup, IsSorted, Above}
use poc_cometbft.Kv.Laws.{sorted_ext}
use poc_cometbft.Kvstore.Badger.{Badger, Laws}
use poc_cometbft.Kvstore.State
use poc_cometbft.Kvstore.State.{is_meta}
use poc_cometbft.Kvstore.Data.{at, at-save_meta}

-- The pairs of the clients.
unfoldable pub user_pairs : Kv → Kv
user_pairs [] = []
user_pairs ((k, v) ∷ m) = let rest = user_pairs m in if is_meta k then rest else (k, v) ∷ rest

-- Keys and values, one behind the other.
unfoldable pub concat_pairs : Kv → Bytes
concat_pairs [] = []
concat_pairs ((k, v) ∷ m) = (k ++ v) ++ concat_pairs m

Above-user_pairs : (k : Bytes) (m : Kv) → Above k m → Above k (user_pairs m)
unfolding user_pairs
Above-user_pairs k [] a = tt
Above-user_pairs k ((j, w) ∷ m) a = ground (arith, Above-user_pairs k m)

IsSorted-user_pairs : (m : Kv) → IsSorted m → IsSorted (user_pairs m)
unfolding user_pairs
IsSorted-user_pairs [] s = tt
IsSorted-user_pairs ((j, w) ∷ m) s = ground (arith, IsSorted-user_pairs m, Above-user_pairs j m)

lookup-user_pairs :
    (k : Bytes) (m : Kv) → lookup k (user_pairs m) ≡ (if is_meta k then none else lookup k m)
unfolding user_pairs lookup
lookup-user_pairs k [] = ground arith
lookup-user_pairs k ((j, w) ∷ m) = ground (arith, lookup-user_pairs k m, bytes_eq_iff j k)

-- Two databases with the same data for the clients have the same pairs for them.
user_pairs_ext :
    (m n : Kv)
    → IsSorted m
    → IsSorted n
    → ((k : Bytes) → is_meta k ≡ false → lookup k m ≡ lookup k n)
    → user_pairs m ≡ user_pairs n
user_pairs_ext m n s t h = sorted_ext _ _ (IsSorted-user_pairs m s) (IsSorted-user_pairs n t) λ k.
    elim (Bool-cases (is_meta k)) [
      | inl meta ↦ ground (arith, lookup-user_pairs k m, lookup-user_pairs k n)
      | inr user ↦ ground (arith, lookup-user_pairs k m, lookup-user_pairs k n, h k user)
    ]

module _ (b : Badger) where
  hashed_pairs :
      (items : List (Bytes × b.Item)) (m : Kv)
      → map {B = Bytes × Outcome b.Error Bytes} (λ item. (item.0, b.value item.1)) items
        ≡ map (λ pair. (pair.0, ok pair.1)) m
      → State.hashed b items ≡ concat_pairs (user_pairs m)
  unfolding State.hashed State.value_or_nothing concat_pairs user_pairs
  hashed_pairs [] [] h = refl
  hashed_pairs [] ((k, v) ∷ m) h = cc
  hashed_pairs ((k, i) ∷ items) [] h = cc
  hashed_pairs ((k, i) ∷ items) ((j, v) ∷ m) h = ground (arith, hashed_pairs items m)

module _ (b : Badger) (l : Laws b) (sum256 : Bytes → Bytes) where
  -- The hash is the digest of the clients' keys and values in the order of the keys.
  pub hash_lem :
      (db : b.Db)
      → State.hash b sum256 db ≡ sum256 (concat_pairs (user_pairs (l.pairs (b.begin db))))
  unfolding State.hash
  hash_lem db = ap sum256 (hashed_pairs b _ _ (l.items_pairs (b.begin db)))

  -- Databases that agree on the clients' keys have the same hash, however they were written and
  -- whatever their meta keys hold.
  pub hash_ext :
      (db db' : b.Db)
      → ((k : Bytes) → is_meta k ≡ false → at b l db k ≡ at b l db' k)
      → State.hash b sum256 db ≡ State.hash b sum256 db'
  hash_ext db db' h =
      hash_lem db
      ∙ ap (λ m. sum256 (concat_pairs m))
          (user_pairs_ext _ _ (l.pairs-IsSorted _) (l.pairs-IsSorted _) h)
      ∙ sym (hash_lem db')

  pub hash-save_meta :
      (db : b.Db) (height : ℕ) (app_hash : Bytes)
      → State.hash b sum256 (State.save_meta b db height app_hash).1 ≡ State.hash b sum256 db
  hash-save_meta db height app_hash =
      hash_ext _ _ (λ k user. at-save_meta b l db height app_hash k user)

  -- The digest does not show where a key ends: a pair `(k ++ m, v)` and a pair `(k, m ++ v)`, each
  -- the only pair of the clients in its database, give the same hash.
  pub hash_boundary :
      (db db' : b.Db) (k m v : Bytes)
      → user_pairs (l.pairs (b.begin db)) ≡ (k ++ m, v) ∷ []
      → user_pairs (l.pairs (b.begin db')) ≡ (k, m ++ v) ∷ []
      → State.hash b sum256 db ≡ State.hash b sum256 db'
  unfolding concat_pairs
  hash_boundary db db' k m v h h' =
      hash_lem db
      ∙ ap (λ p. sum256 (concat_pairs p)) h
      ∙ ap (λ t. sum256 (t ++ [])) (append_assoc k m v)
      ∙ ap (λ p. sum256 (concat_pairs p)) (sym h')
      ∙ sym (hash_lem db')
