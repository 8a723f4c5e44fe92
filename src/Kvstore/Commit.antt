-- ===== src/Kvstore/Commit.antt =====
-- What `Commit` leaves in the database, and what a restart finds there.
use poc_cometbft.Prelude.{
  ℕ, List, [], ◌∷◌, ◌≡◌, refl, ap, ◌∙◌, false, some, ok, arith, length, ltb, Bool-cases, inl, inr,
}
use poc_cometbft.Bytes.{Bytes, bytes_eq}
use poc_cometbft.Bytes.BigEndian.{put_uint64, uint64-put_uint64, IsU64}
use poc_cometbft.Kv.{lookup}
use poc_cometbft.Kv.Laws.{lookup-insert}
use poc_cometbft.Kvstore.Badger.{Badger, Laws}
use poc_cometbft.Kvstore.State
use poc_cometbft.Kvstore.State.{is_meta, meta_height, meta_app_hash}
use poc_cometbft.Kvstore.Data.{
  last_write, at, at-batch_set, at-batch_set_failed, at-save_meta, pairs-save_meta,
}
use poc_cometbft.Kvstore.Hash.{hash-save_meta}
use poc_cometbft.Kvstore.App
use poc_cometbft.Kvstore.App.{KvStoreApp}

module _ (b : Badger) where
  -- Badger took the staged pairs.
  abbrev pub Written : KvStoreApp b → Type 0
  Written app = (App.write_staged b app).0 ≡ ok tt

  -- Badger took height and hash.
  abbrev pub Saved : (Bytes → Bytes) → KvStoreApp b → Type 0
  Saved sum256 app =
      let written = (App.write_staged b app).1 in
      (State.save_meta b written app.height (State.hash b sum256 written)).0 ≡ ok tt

nothing_staged {ℓ} : {A : Type ℓ} (xs : List A) → ltb 0 (length xs) ≡ false → xs ≡ []
nothing_staged [] h = refl
nothing_staged (x ∷ xs) h = absurd (ground arith)

module _ (b : Badger) (l : Laws b) where
  pub at-write_staged :
      (app : KvStoreApp b) (k : Bytes)
      → Written b app
      → at b l (App.write_staged b app).1 k ≡ last_write k app.staged (at b l app.state k)
  unfolding App.write_staged last_write
  at-write_staged app k h =
      ground (arith, at-batch_set b l app.state app.staged k, nothing_staged app.staged)

  pub at-write_staged_failed :
      (app : KvStoreApp b) (k : Bytes)
      → ¬ Written b app
      → at b l (App.write_staged b app).1 k ≡ at b l app.state k
  unfolding App.write_staged
  at-write_staged_failed app k h = elim (Bool-cases (ltb 0 (length app.staged))) [
    | inl some_staged ↦
        rw some_staged (at-batch_set_failed b l app.state app.staged k (rw some_staged at h))
    | inr none_staged ↦ rw none_staged refl
  ]

  -- The two keys hold what was saved.
  pub at-save_meta_height :
      (db : b.Db) (height : ℕ) (app_hash : Bytes)
      → (State.save_meta b db height app_hash).0 ≡ ok tt
      → at b l (State.save_meta b db height app_hash).1 meta_height ≡ some (put_uint64 height)
  unfolding bytes_eq
  at-save_meta_height db height app_hash h =
      ap (lookup meta_height) (pairs-save_meta b l db height app_hash h)
      ∙ lookup-insert meta_app_hash meta_height app_hash _
      ∙ lookup-insert meta_height meta_height (put_uint64 height) (l.pairs (b.begin db))

  pub at-save_meta_app_hash :
      (db : b.Db) (height : ℕ) (app_hash : Bytes)
      → (State.save_meta b db height app_hash).0 ≡ ok tt
      → at b l (State.save_meta b db height app_hash).1 meta_app_hash ≡ some app_hash
  unfolding bytes_eq
  at-save_meta_app_hash db height app_hash h =
      ap (lookup meta_app_hash) (pairs-save_meta b l db height app_hash h)
      ∙ lookup-insert meta_app_hash meta_app_hash app_hash _

  pub load_meta_lem :
      (db : b.Db) (height : ℕ) (app_hash : Bytes)
      → IsU64 height
      → at b l db meta_height ≡ some (put_uint64 height)
      → at b l db meta_app_hash ≡ some app_hash
      → State.load_meta b db ≡ ok (height, app_hash)
  unfolding State.load_meta State.read_meta
  load_meta_lem db height app_hash u at_height at_hash =
      let (i, got, val) = l.get_hit _ _ _ at_height in
      let (i', got', val') = l.get_hit _ _ _ at_hash in
      rw (got, State.read_meta, val, uint64-put_uint64 height u, got', val') refl

  load-save_meta :
      (db : b.Db) (height : ℕ) (app_hash : Bytes)
      → IsU64 height
      → (State.save_meta b db height app_hash).0 ≡ ok tt
      → State.load_meta b (State.save_meta b db height app_hash).1 ≡ ok (height, app_hash)
  load-save_meta db height app_hash u h =
      load_meta_lem _ height app_hash u (at-save_meta_height db height app_hash h)
        (at-save_meta_app_hash db height app_hash h)

module _ (b : Badger) (l : Laws b) (sum256 : Bytes → Bytes) where
  -- After a commit whose pairs Badger took, each key of the clients has the last value staged for it,
  -- or its old one.
  pub at-commit :
      (app : KvStoreApp b) (k : Bytes)
      → is_meta k ≡ false
      → Written b app
      → at b l (App.commit b sum256 app).state k ≡ last_write k app.staged (at b l app.state k)
  unfolding App.commit
  at-commit app k user h = at-save_meta b l _ _ _ k user ∙ at-write_staged b l app k h

  -- Where Badger refused the pairs, `Commit` goes on: each key of the clients stays as it was, nothing
  -- stays staged, and the app reports the new height all the same.
  pub commit_drops :
      (app : KvStoreApp b) (k : Bytes)
      → is_meta k ≡ false
      → ¬ Written b app
      → (at b l (App.commit b sum256 app).state k ≡ at b l app.state k)
        × ((App.info b (App.commit b sum256 app)).last_block_height ≡ app.height)
        × ((App.commit b sum256 app).staged ≡ [])
  unfolding App.commit App.info
  commit_drops app k user h =
      (at-save_meta b l _ _ _ k user ∙ at-write_staged_failed b l app k h, refl, refl)

  -- The hash that the app reports after a commit is the hash of the database that it left, whichever
  -- of the two writes failed.
  pub hash-commit :
      (app : KvStoreApp b)
      → State.hash b sum256 (App.commit b sum256 app).state ≡ (App.commit b sum256 app).app_hash
  unfolding App.commit
  hash-commit app = hash-save_meta b l sum256 _ _ _

  -- A process that starts on the database of a commit that saved its meta keys, with a height of 64
  -- bits, is in the state that the commit left.
  pub restart-commit :
      (app : KvStoreApp b)
      → IsU64 app.height
      → Saved b sum256 app
      → App.new_kv_store_app b (App.commit b sum256 app).state ≡ ok (App.commit b sum256 app)
  unfolding App.commit App.new_kv_store_app
  restart-commit app u h = rw (load-save_meta b l _ _ _ u h) refl
