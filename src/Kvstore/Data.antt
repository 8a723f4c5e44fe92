-- ===== src/Kvstore/Data.antt =====
-- What a client can see of the database: its pairs, less the two meta keys. What the writes of
-- state.go do to them.
use poc_cometbft.Prelude.{
  ℕ, List, [], ◌∷◌, ◌≡◌, ◌≢◌, ap, ◌∙◌, false, Option, some, ok, >>=-eq-ok, if◌then◌else◌, arith,
  inl, inr, returned_or_not,
}
use poc_cometbft.Bytes.{Bytes, bytes_eq, bytes_eq_iff}
use poc_cometbft.Bytes.BigEndian.{put_uint64}
use poc_cometbft.Kv.{lookup, insert}
use poc_cometbft.Kv.Laws.{lookup-insert}
use poc_cometbft.Kvstore.Badger.{Badger, Laws}
use poc_cometbft.Kvstore.State
use poc_cometbft.Kvstore.State.{is_meta, meta_height, meta_app_hash}

-- The last value that a list of writes has for `k`, or `old` where it has none.
unfoldable pub last_write : Bytes → List (Bytes × Bytes) → Option Bytes → Option Bytes
last_write k [] old = old
last_write k ((j, v) ∷ writes) old = last_write k writes (if bytes_eq j k then some v else old)

module _ (b : Badger) (l : Laws b) where
  -- What a read of `k` finds in the database.
  abbrev pub at : b.Db → Bytes → Option Bytes
  at db k = lookup k (l.pairs (b.begin db))

  at_txn : b.Txn → Bytes → Option Bytes
  at_txn t k = lookup k (l.pairs t)

  set_all_lem :
      (writes : List (Bytes × Bytes)) (t t' : b.Txn) (k : Bytes)
      → State.set_all b writes t ≡ ok t'
      → lookup k (l.pairs t') ≡ last_write k writes (lookup k (l.pairs t))
  unfolding State.set_all last_write
  set_all_lem [] t t' k h = ground arith
  set_all_lem ((j, v) ∷ writes) t t' k h =
      let (t1, one, more) = >>=-eq-ok (b.set t j v) (State.set_all b writes) h in
      set_all_lem writes t1 t' k more
      ∙ ap (last_write k writes)
          (ap (lookup k) (l.set_pairs t t1 j v one) ∙ lookup-insert j k v (l.pairs t))

  -- A batch that Badger took leaves at each key the last value that it has for the key.
  pub at-batch_set :
      (db : b.Db) (writes : List (Bytes × Bytes)) (k : Bytes)
      → (State.batch_set b db writes).0 ≡ ok tt
      → at (State.batch_set b db writes).1 k ≡ last_write k writes (at db k)
  unfolding State.batch_set
  at-batch_set db writes k h =
      let (t, ran, shows) = l.update_returned (State.set_all b writes) db h in
      ap (lookup k) shows ∙ set_all_lem writes (b.begin db) t k ran

  -- A batch that failed leaves everything as it was.
  pub at-batch_set_failed :
      (db : b.Db) (writes : List (Bytes × Bytes)) (k : Bytes)
      → (State.batch_set b db writes).0 ≢ ok tt
      → at (State.batch_set b db writes).1 k ≡ at db k
  unfolding State.batch_set
  at-batch_set_failed db writes k h =
      ap (lookup k) (l.update_discards (State.set_all b writes) db h)

  -- The two writes of `SaveMeta`.
  write_meta_lem :
      (height : ℕ) (app_hash : Bytes) (t t' : b.Txn)
      → State.write_meta b height app_hash t ≡ ok t'
      → l.pairs t'
        ≡ insert meta_app_hash app_hash (insert meta_height (put_uint64 height) (l.pairs t))
  unfolding State.write_meta
  write_meta_lem height app_hash t t' h =
      let (t1, one, two) =
        >>=-eq-ok (b.set t meta_height (put_uint64 height)) (λ s. b.set s meta_app_hash app_hash)
          h in
      l.set_pairs t1 t' meta_app_hash app_hash two
      ∙ ap (insert meta_app_hash app_hash) (l.set_pairs t t1 meta_height (put_uint64 height) one)

  pub pairs-save_meta :
      (db : b.Db) (height : ℕ) (app_hash : Bytes)
      → (State.save_meta b db height app_hash).0 ≡ ok tt
      → l.pairs (b.begin (State.save_meta b db height app_hash).1)
        ≡ insert meta_app_hash app_hash
            (insert meta_height (put_uint64 height) (l.pairs (b.begin db)))
  unfolding State.save_meta
  pairs-save_meta db height app_hash h =
      let (t, ran, shows) = l.update_returned (State.write_meta b height app_hash) db h in
      shows ∙ write_meta_lem height app_hash (b.begin db) t ran

  -- `SaveMeta` leaves the data of the clients alone, whether or not it fails.
  pub at-save_meta :
      (db : b.Db) (height : ℕ) (app_hash k : Bytes)
      → is_meta k ≡ false
      → at (State.save_meta b db height app_hash).1 k ≡ at db k
  unfolding is_meta
  at-save_meta db height app_hash k user =
      elim (returned_or_not (State.save_meta b db height app_hash).0) [
        | inl taken ↦
            ap (lookup k) (pairs-save_meta db height app_hash taken)
            ∙ ground (
              arith,
              lookup-insert meta_app_hash k app_hash
                  (insert meta_height (put_uint64 height) (l.pairs (b.begin db))),
              lookup-insert meta_height k (put_uint64 height) (l.pairs (b.begin db)),
              bytes_eq_iff meta_height k,
              bytes_eq_iff k meta_height,
              bytes_eq_iff meta_app_hash k,
              bytes_eq_iff k meta_app_hash,
            )
        | inr failed ↦
            unfold State.save_meta in
            ap (lookup k) (
              l.update_discards (State.write_meta b height app_hash) db
                (unfold State.save_meta in failed))
      ]
