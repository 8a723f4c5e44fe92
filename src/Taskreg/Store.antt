-- ===== src/Taskreg/Store.antt =====
-- What the keeper uses of the SDK: the module's store (cosmossdk.io/core/store) and the codec.
use poc_cometbft.Prelude.{◌≡◌, Option, some, Outcome, ok}
use poc_cometbft.Bytes.{Bytes}
use poc_cometbft.Kv.{Kv, lookup, insert, from, IsSorted}
use poc_cometbft.Taskreg.Types.{Task, IsTask}

-- `get` and `iterator` may fail; `iterator s start` is the pairs that `Iterator(start, nil)` visits.
-- `set` is the store behind a `Set`, whose error the keeper drops.
pub record KvStoreService : Type 1 where
  pub Store : Type 0
  pub Fault : Type 0
  pub get : Store → Bytes → Outcome Fault (Option Bytes)
  pub set : Store → Bytes → Bytes → Store
  pub iterator : Store → Bytes → Outcome Fault Kv

-- The documented behaviour of a store that does not fail: a map that iterates in the byte order of
-- its keys.
pub record StoreLaws (s : KvStoreService) : Type 0 where
  pub pairs : s.Store → Kv
  pub pairs-IsSorted : (st : s.Store) → IsSorted (pairs st)
  pub get_lem : (st : s.Store) (k : Bytes) → s.get st k ≡ ok (lookup k (pairs st))
  pub set_lem : (st : s.Store) (k v : Bytes) → pairs (s.set st k v) ≡ insert k v (pairs st)
  pub iterator_lem :
      (st : s.Store) (start : Bytes) → s.iterator st start ≡ ok (from start (pairs st))

-- `MustMarshal` of a task, and what `MustUnmarshal` reads, or none where it panics.
pub record Codec : Type 0 where
  pub marshal : Task → Bytes
  pub unmarshal : Bytes → Option Task

pub record CodecLaws (c : Codec) : Type 0 where
  pub unmarshal-marshal : (t : Task) → IsTask t → c.unmarshal (c.marshal t) ≡ some t
