-- ===== src/Kvstore/State.antt =====
-- abci-kvstore/state.go. Log lines are left out. A `db` stands for what the shared handle leads to,
-- and a method that writes returns the database after it.
use poc_cometbft.Prelude.{
  ℕ, List, [], ◌∷◌, ◌++◌, Bool, ◌||◌, Outcome, ok, err, panic, ◌>>=◌, if◌then◌else◌,
}
use poc_cometbft.Bytes.{Bytes, bytes, bytes_eq}
use poc_cometbft.Bytes.BigEndian.{put_uint64, uint64}
use poc_cometbft.Kvstore.Badger.{Badger}

abbrev pub meta_height : Bytes
meta_height = bytes "__meta_height"

abbrev pub meta_app_hash : Bytes
meta_app_hash = bytes "__meta_apphash"

unfoldable pub is_meta : Bytes → Bool
is_meta key = bytes_eq key meta_height || bytes_eq key meta_app_hash

module _ (b : Badger) where
  unfoldable pub set : b.Db → Bytes → Bytes → Outcome b.Error (Unit {0}) × b.Db
  set db key value = b.update (λ txn. b.set txn key value) db

  unfoldable pub get : b.Db → Bytes → Outcome b.Error Bytes
  get db key = do item ← b.get (b.begin db) key; b.value item

  -- The loop of `BatchSet`, which stops at the first write that fails.
  unfoldable pub set_all : List (Bytes × Bytes) → b.Txn → Outcome b.Error b.Txn
  set_all [] txn = ok txn
  set_all ((key, value) ∷ pairs) txn = do txn' ← b.set txn key value; set_all pairs txn'

  unfoldable pub batch_set : b.Db → List (Bytes × Bytes) → Outcome b.Error (Unit {0}) × b.Db
  batch_set db pairs = b.update (set_all pairs) db

  -- The function that `SaveMeta` hands to `Update`.
  unfoldable pub write_meta : ℕ → Bytes → b.Txn → Outcome b.Error b.Txn
  write_meta height app_hash txn = do
    txn' ← b.set txn meta_height (put_uint64 height)
    b.set txn' meta_app_hash app_hash

  -- The height is an int64, held as the 64-bit pattern to which `uint64(height)` converts it.
  unfoldable pub save_meta : b.Db → ℕ → Bytes → Outcome b.Error (Unit {0}) × b.Db
  save_meta db height app_hash = b.update (write_meta height app_hash) db

  -- `LoadMeta` behind its first read.
  unfoldable pub read_meta : b.Txn → Outcome b.Error b.Item → Outcome b.Error (ℕ × Bytes)
  read_meta txn (ok item) = do
    hb ← b.value item
    height ← uint64 hb
    item' ← b.get txn meta_app_hash
    app_hash ← b.value item'
    ok (height, app_hash)
  read_meta txn (err e) = if b.is_key_not_found e then ok (0, []) else err e
  read_meta txn panic = panic

  -- What stands beside an error is left out: the only caller ends the process then.
  unfoldable pub load_meta : b.Db → Outcome b.Error (ℕ × Bytes)
  load_meta db = let txn = b.begin db in read_meta txn (b.get txn meta_height)

  -- An item whose value cannot be read adds its key alone.
  unfoldable pub value_or_nothing : Outcome b.Error Bytes → Bytes
  value_or_nothing (ok val) = val
  value_or_nothing (err e) = []
  value_or_nothing panic = []

  -- The bytes that the loop of `Hash` writes into the digest.
  unfoldable pub hashed : List (Bytes × b.Item) → Bytes
  hashed [] = []
  hashed ((key, item) ∷ rest) =
      (if is_meta key then [] else key ++ value_or_nothing (b.value item)) ++ hashed rest

  -- `sum256` is SHA-256.
  unfoldable pub hash : (Bytes → Bytes) → b.Db → Bytes
  hash sum256 db = sum256 (hashed (b.items (b.begin db)))
