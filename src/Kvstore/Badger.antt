-- ===== src/Kvstore/Badger.antt =====
-- What abci-kvstore uses of Badger (github.com/dgraph-io/badger/v4), as an interface.
use poc_cometbft.Prelude.{List, [], ◌≡◌, ◌≢◌, Bool, true, none, some, map, Outcome, ok, err}
use poc_cometbft.Bytes.{Bytes}
use poc_cometbft.Kv.{Kv, lookup, insert, IsSorted}

-- `begin` is the transaction that `DB.View` and `DB.Update` hand to their function. `update` is
-- `DB.Update`: the function's new transaction is committed, and an error discards it. `value` is
-- what `Item.ValueCopy` copies and `Item.Value` shows. `items` is what an iterator with the default
-- options visits, from `Rewind` on.
pub record Badger : Type 1 where
  pub Db : Type 0
  pub Txn : Type 0
  pub Item : Type 0
  pub Error : Type 0
  pub begin : Db → Txn
  pub update : (Txn → Outcome Error Txn) → Db → Outcome Error (Unit {0}) × Db
  pub get : Txn → Bytes → Outcome Error Item
  pub set : Txn → Bytes → Bytes → Outcome Error Txn
  pub value : Item → Outcome Error Bytes
  pub items : Txn → List (Bytes × Item)
  pub is_key_not_found : Error → Bool

-- Badger's documented behaviour. `pairs` is what a transaction shows: the pairs in the byte order of
-- their keys, the empty key never among them. A write may fail, and an `Update` that returns no nil
-- changes nothing.
pub record Laws (b : Badger) : Type 0 where
  pub pairs : b.Txn → Kv
  pub pairs-IsSorted : (t : b.Txn) → IsSorted (pairs t)
  pub get_hit :
      (t : b.Txn) (k v : Bytes)
      → lookup k (pairs t) ≡ some v
      → (i : b.Item) × (b.get t k ≡ ok i) × (b.value i ≡ ok v)
  pub get_miss :
      (t : b.Txn) (k : Bytes)
      → k ≢ []
      → lookup k (pairs t) ≡ none
      → (e : b.Error) × (b.get t k ≡ err e) × (b.is_key_not_found e ≡ true)
  pub get_empty : (t : b.Txn) → (e : b.Error) × (b.get t [] ≡ err e)
  pub set_pairs :
      (t t' : b.Txn) (k v : Bytes) → b.set t k v ≡ ok t' → pairs t' ≡ insert k v (pairs t)
  pub update_returned :
      (f : b.Txn → Outcome b.Error b.Txn) (db : b.Db)
      → (b.update f db).0 ≡ ok tt
      → (t : b.Txn) × (f (b.begin db) ≡ ok t) × (pairs (b.begin (b.update f db).1) ≡ pairs t)
  pub update_discards :
      (f : b.Txn → Outcome b.Error b.Txn) (db : b.Db)
      → (b.update f db).0 ≢ ok tt
      → pairs (b.begin (b.update f db).1) ≡ pairs (b.begin db)
  pub items_pairs :
      (t : b.Txn)
      → map {B = Bytes × Outcome b.Error Bytes} (λ item. (item.0, b.value item.1)) (b.items t)
        ≡ map (λ pair. (pair.0, ok pair.1)) (pairs t)
