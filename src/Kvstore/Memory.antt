-- ===== src/Kvstore/Memory.antt =====
-- A Badger that keeps its pairs in memory and meets the laws: the assumptions of the theorems can hold.
use poc_cometbft.Prelude.{
  ℕ, [], ◌∷◌, ◌≡◌, ◌≢◌, refl, ap, Bool, true, false, Option, none, some, Outcome, ok, err, panic,
  if◌then◌else◌, inl, inr, ◌∙◌, sym, Bool-cases, ◌==◌,
}
use poc_cometbft.Bytes.{Bytes, bytes_eq}
use poc_cometbft.Kv.{Kv, lookup, insert, IsSorted}
use poc_cometbft.Kv.Laws.{insert-IsSorted, lookup-insert}
use poc_cometbft.Kvstore.Badger.{Badger, Laws}

pub data Error : Type 0 where
  key_not_found empty_key invalid_key : Error

-- Pairs in key order.
pub record Store : Type 0 where
  pub pairs : Kv
  pub sorted : IsSorted pairs
  pub no_empty : lookup [] pairs ≡ none

pub lookup-nil : (k : Bytes) → lookup k [] ≡ none
unfolding lookup
lookup-nil k = refl

abbrev pub empty : Store
empty = record { pairs = []; sorted = tt; no_empty = lookup-nil [] }

abbrev pub found : Option Bytes → Outcome Error Bytes
found none = err key_not_found
found (some v) = ok v

abbrev pub get : Store → Bytes → Outcome Error Bytes
get s [] = err empty_key
get s (c ∷ k) = found (lookup (c ∷ k) s.pairs)

pub empty_key_insert :
    (c : ℕ) (k v : Bytes) (m : Kv) → lookup [] m ≡ none → lookup [] (insert (c ∷ k) v m) ≡ none
unfolding bytes_eq
empty_key_insert c k v m h = lookup-insert (c ∷ k) [] v m ∙ h

-- Badger reserves the keys that begin with `!badger!`; this store, those that begin with `!`.
abbrev pub set : Store → Bytes → Bytes → Outcome Error Store
set s [] v = err empty_key
set s (c ∷ k) v =
    if c == b'!'
    then err invalid_key
    else ok (record {
      pairs = insert (c ∷ k) v s.pairs;
      sorted = insert-IsSorted (c ∷ k) v s.pairs s.sorted;
      no_empty = empty_key_insert c k v s.pairs s.no_empty;
    })

abbrev pub finish : Outcome Error Store → Store → Outcome Error (Unit {0}) × Store
finish (ok s') s = (ok tt, s')
finish (err e) s = (err e, s)
finish panic s = (panic, s)

abbrev pub is_key_not_found : Error → Bool
is_key_not_found key_not_found = true
is_key_not_found _ = false

abbrev pub memory : Badger
memory = record {
  Db = Store;
  Txn = Store;
  Item = Bytes;
  Error = Error;
  begin = λ s. s;
  update = λ f s. finish (f s) s;
  get = get;
  set = set;
  value = λ v. ok v;
  items = λ s. s.pairs;
  is_key_not_found = is_key_not_found;
}

pub get_hit :
    (t : Store) (k v : Bytes)
    → lookup k t.pairs ≡ some v
    → (i : Bytes) × (get t k ≡ ok i) × (◌≡◌ {A = Outcome Error Bytes} (ok i) (ok v))
get_hit t [] v h = cc (t.no_empty)
get_hit t (c ∷ k) v h = (v, ap found h, refl)

pub get_miss :
    (t : Store) (k : Bytes)
    → k ≢ []
    → lookup k t.pairs ≡ none
    → (e : Error) × (get t k ≡ err e) × (is_key_not_found e ≡ true)
get_miss t [] ne h = absurd (ne refl)
get_miss t (c ∷ k) ne h = (key_not_found, ap found h, refl)

shown : Outcome Error Store → Kv
shown (ok t) = t.pairs
shown (err e) = []
shown panic = []

pub set_pairs : (t t' : Store) (k v : Bytes) → set t k v ≡ ok t' → t'.pairs ≡ insert k v t.pairs
unfolding shown
set_pairs t t' [] v h = cc
set_pairs t t' (c ∷ k) v h = elim (Bool-cases (c == b'!')) [
  | inl reserved ↦ cc (rw reserved at h)
  | inr free ↦ ap shown (sym (rw free at h))
]

pub update_returned :
    (r : Outcome Error Store) (db : Store)
    → (finish r db).0 ≡ ok tt
    → (t : Store) × (r ≡ ok t) × ((finish r db).1.pairs ≡ t.pairs)
update_returned (ok t) db h = (t, refl, refl)
update_returned (err e) db h = cc
update_returned panic db h = cc

pub update_discards :
    (r : Outcome Error Store) (db : Store)
    → (finish r db).0 ≢ ok tt
    → (finish r db).1.pairs ≡ db.pairs
update_discards (ok t) db h = absurd (h refl)
update_discards (err e) db h = refl
update_discards panic db h = refl

abbrev pub memory-laws : Laws memory
memory-laws = record {
  pairs = λ t. t.pairs;
  pairs-IsSorted = λ t. t.sorted;
  get_hit = get_hit;
  get_miss = get_miss;
  get_empty = λ t. (empty_key, refl);
  set_pairs = set_pairs;
  update_returned = λ f db h. update_returned (f db) db h;
  update_discards = λ f db h. update_discards (f db) db h;
  items_pairs = λ t. refl;
}
