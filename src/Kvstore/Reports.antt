-- ===== src/Kvstore/Reports.antt =====
-- The height and the hash that abci-kvstore reports behind any ends and restarts of its process.
use mathlib.Core.Path.{subst}
use poc_cometbft.Prelude.{
  ℕ, zero, suc, List, [], ◌∷◌, ◌++◌, ◌≡◌, refl, sym, ◌∙◌, ◌⊎◌, inl, inr, true, arith, Option, none,
  some, ok, ok-injective, returned_or_not,
}
use poc_cometbft.Bytes.{Bytes, bytes_eq}
use poc_cometbft.Bytes.BigEndian.{put_uint64, IsU64}
use poc_cometbft.Kvstore.Badger.{Badger, Laws}
use poc_cometbft.Kvstore.State
use poc_cometbft.Kvstore.State.{is_meta, meta_height, meta_app_hash}
use poc_cometbft.Kvstore.Data.{last_write, at}
use poc_cometbft.Kvstore.App
use poc_cometbft.Kvstore.App.{KvStoreApp, RequestFinalizeBlock, new_kv_store_app}
use poc_cometbft.Kvstore.Tx.{staged_by, staged_by_all, Renders→valid}
use poc_cometbft.Kvstore.Commit.{
  Written, Saved, load_meta_lem, at-save_meta_height, at-save_meta_app_hash,
}
use poc_cometbft.Kvstore.Block.{execute}
use poc_cometbft.Kvstore.Crash.{
  Runs, booted, committed, restarted, torn, finalized, torn_db, at-torn, at-torn_failed,
}

-- None of the writes is one of a meta key.
abbrev pub NoMeta : List (Bytes × Bytes) → Type 0
NoMeta writes =
    (k : Bytes) → is_meta k ≡ true → (old : Option Bytes) → last_write k writes old ≡ old

module _ (b : Badger) (l : Laws b) where
  -- A database without meta keys, for height 0 and no hash, or one whose meta keys hold the two.
  abbrev pub HasMeta : b.Db → ℕ → Bytes → Type 0
  HasMeta db height app_hash =
      ((at b l db meta_height ≡ none) × (height ≡ 0) × (app_hash ≡ []))
      ⊎ ((at b l db meta_height ≡ some (put_uint64 height))
          × (at b l db meta_app_hash ≡ some app_hash)
          × IsU64 height)

  load_meta-HasMeta :
      (db : b.Db) (height : ℕ) (app_hash : Bytes)
      → HasMeta db height app_hash
      → State.load_meta b db ≡ ok (height, app_hash)
  unfolding State.load_meta State.read_meta
  load_meta-HasMeta db height app_hash (inl (missing, no_height, no_hash)) =
      let (e, failed, absent) = l.get_miss _ meta_height (λ p. cc) missing in
      rw (failed, State.read_meta, absent, no_height, no_hash) refl
  load_meta-HasMeta db height app_hash (inr (at_height, at_hash, u)) =
      load_meta_lem b l db height app_hash u at_height at_hash

  new_kv_store_app-HasMeta :
      (db : b.Db) (height : ℕ) (app_hash : Bytes)
      → HasMeta db height app_hash
      → new_kv_store_app b db
        ≡ ok (record { state = db; height = height; app_hash = app_hash; staged = [] })
  unfolding new_kv_store_app
  new_kv_store_app-HasMeta db height app_hash h = rw (load_meta-HasMeta db height app_hash h) refl

  HasMeta-same :
      (db db' : b.Db) (height : ℕ) (app_hash : Bytes)
      → ((k : Bytes) → is_meta k ≡ true → at b l db' k ≡ at b l db k)
      → HasMeta db height app_hash
      → HasMeta db' height app_hash
  unfolding is_meta bytes_eq
  HasMeta-same db db' height app_hash same (inl (missing, no_height, no_hash)) =
      inl (same meta_height refl ∙ missing, no_height, no_hash)
  HasMeta-same db db' height app_hash same (inr (at_height, at_hash, u)) =
      inr (same meta_height refl ∙ at_height, same meta_app_hash refl ∙ at_hash, u)

module _ (b : Badger) (l : Laws b) (sum256 : Bytes → Bytes) where
  HasMeta-execute :
      (app : KvStoreApp b) (req : RequestFinalizeBlock)
      → IsU64 req.height
      → Saved b sum256 (finalized b app req)
      → HasMeta b l
          (execute b sum256 app req).state
          (execute b sum256 app req).height
          (execute b sum256 app req).app_hash
  unfolding execute App.commit App.finalize_block
  HasMeta-execute app req u saved =
      inr (at-save_meta_height b l _ _ _ saved, at-save_meta_app_hash b l _ _ _ saved, u)

  height-execute :
      (app : KvStoreApp b) (req : RequestFinalizeBlock)
      → (execute b sum256 app req).height ≡ req.height
  unfolding execute App.commit App.finalize_block
  height-execute app req = refl

module _ (b : Badger) (l : Laws b) (sum256 : Bytes → Bytes) (start : KvStoreApp b)
    (chain : ℕ → RequestFinalizeBlock) where
  -- The height of the last of the first `n` blocks.
  abbrev pub height_after : ℕ → ℕ
  height_after zero = start.height
  height_after (suc n) = (chain n).height

  -- What the app has in memory is what its database has.
  abbrev Kept : ℕ → KvStoreApp b → Type 0
  Kept n app = HasMeta b l app.state app.height app.app_hash × (app.height ≡ height_after n)

  restart-Kept :
      (n : ℕ) (app app' : KvStoreApp b) (db : b.Db)
      → Kept n app
      → HasMeta b l db app.height app.app_hash
      → new_kv_store_app b db ≡ ok app'
      → Kept n app'
  restart-Kept n app app' db kept meta made =
      let same = ok-injective (sym (new_kv_store_app-HasMeta b l db _ _ meta) ∙ made) in
      subst (Kept n) same (meta, kept.1)

  torn-HasMeta :
      (app : KvStoreApp b) (req : RequestFinalizeBlock)
      → NoMeta (staged_by_all req.txs)
      → HasMeta b l app.state app.height app.app_hash
      → HasMeta b l (torn_db b app req) app.height app.app_hash
  torn-HasMeta app req no_meta meta =
      HasMeta-same b l app.state (torn_db b app req) _ _
        (λ k is. elim (returned_or_not (App.write_staged b (finalized b app req)).0) [
          | inl written ↦ at-torn b l app req k written ∙ no_meta k is _
          | inr failed ↦ at-torn_failed b l app req k failed
        ])
        meta

  Runs-Kept :
      {n : ℕ} {app : KvStoreApp b}
      → ((i : ℕ) → IsU64 (chain i).height)
      → ((i : ℕ) → NoMeta (staged_by_all (chain i).txs))
      → HasMeta b l start.state start.height start.app_hash
      → Runs b sum256 start chain n app
      → Kept n app
  Runs-Kept heights no_meta meta booted = (meta, refl)
  Runs-Kept heights no_meta meta (committed {n} {app} run written saved) = (
    HasMeta-execute b l sum256 app (chain n) (heights n) saved,
    height-execute b l sum256 app (chain n),
  )
  Runs-Kept heights no_meta meta (restarted {n} {app} {app'} run made) =
      let kept = Runs-Kept heights no_meta meta run in
      restart-Kept n app app' app.state kept kept.0 made
  Runs-Kept heights no_meta meta (torn {n} {app} {app'} run made) =
      let kept = Runs-Kept heights no_meta meta run in
      restart-Kept n app app' (torn_db b app (chain n)) kept
        (torn-HasMeta app (chain n) (no_meta n) kept.0) made

  -- Where no block writes a meta key, the heights have 64 bits, and the database was new or had its
  -- meta keys: after any run, the app reports the height of the last block that was committed, and
  -- wherever its process ends, between two blocks, behind `FinalizeBlock` or in the `Commit` of the
  -- next block behind the write of its pairs, a new process reports the same height and hash.
  pub reports_kept :
      {n : ℕ} {app : KvStoreApp b}
      → ((i : ℕ) → IsU64 (chain i).height)
      → ((i : ℕ) → NoMeta (staged_by_all (chain i).txs))
      → HasMeta b l start.state start.height start.app_hash
      → Runs b sum256 start chain n app
      → ((App.info b app).last_block_height ≡ height_after n)
        × (new_kv_store_app b app.state ≡ ok (record app { staged = [] }))
        × (new_kv_store_app b (torn_db b app (chain n))
            ≡ ok (record app { state = torn_db b app (chain n); staged = [] }))
  unfolding App.info
  reports_kept {n} {app} heights no_meta meta run =
      let kept = Runs-Kept heights no_meta meta run in
      (
        kept.1,
        new_kv_store_app-HasMeta b l app.state _ _ kept.0,
        new_kv_store_app-HasMeta b l (torn_db b app (chain n)) _ _
            (torn-HasMeta app (chain n) (no_meta n) kept.0),
      )

-- The transaction `__meta_height=` and a height in eight bytes.
unfoldable pub forging : ℕ → Bytes
forging height = meta_height ++ (b'=' ∷ put_uint64 height)

staged_by_all-forging :
    (height : ℕ) → staged_by_all (forging height ∷ []) ≡ (meta_height, put_uint64 height) ∷ []
unfolding staged_by_all staged_by forging
staged_by_all-forging height =
    let (valid, parsed) =
      Renders→valid (forging height) meta_height (put_uint64 height) (λ e. cc, omega arith, refl) in
    rw (valid, parsed) refl

module _ (b : Badger) (l : Laws b) where
  -- A client can write the meta keys. Where the one transaction of a block is `__meta_height=` and eight
  -- bytes, Badger takes it, and the process ends in the block's `Commit` behind the write of the pairs:
  -- the next process takes the height in these bytes for that of the last block, with the hash that the
  -- database had before.
  pub forged_height :
      (app : KvStoreApp b) (height block_height : ℕ)
      → IsU64 height
      → at b l app.state meta_app_hash ≡ some app.app_hash
      → Written b (finalized b app (record { txs = forging height ∷ []; height = block_height }))
      → new_kv_store_app b
          (torn_db b app (record { txs = forging height ∷ []; height = block_height }))
        ≡ ok (record {
          state = torn_db b app (record { txs = forging height ∷ []; height = block_height });
          height = height;
          app_hash = app.app_hash;
          staged = [];
        })
  unfolding last_write bytes_eq
  forged_height app height block_height u old written = new_kv_store_app-HasMeta b l _ _ _ (
      inr (
        at-torn b l app _ meta_height written ∙ rw (staged_by_all-forging height) refl,
        at-torn b l app _ meta_app_hash written ∙ rw (staged_by_all-forging height) old,
        u,
      ))
