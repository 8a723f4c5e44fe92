-- ===== src/Taskreg/Prefix.antt =====
-- Keys with the prefix of the tasks stand together in the order of the store.
use poc_cometbft.Prelude.{
  ℕ, ◌<◌, ◌≤◌, ◌≡◌, ◌≢◌, refl, sym, ◌∙◌, [], ◌∷◌, ◌++◌, true, false, Ordering, compare, length,
  arith,
}
use poc_cometbft.Bytes.{Bytes, bytes_eq_iff}
use poc_cometbft.Bytes.Order.{compare_bytes, Below}
use poc_cometbft.Bytes.BigEndian.{IsU64, put_uint64, compare-put_uint64}
use poc_cometbft.Kv.{Kv, lookup, from, Above, IsSorted}
use poc_cometbft.Taskreg.Types.{key_task, task_key_prefix}
use poc_cometbft.Taskreg.Keeper.{matches, has_prefix}

matches-append : (p s : Bytes) → matches p (p ++ s) ≡ true
unfolding matches
matches-append [] s = refl
matches-append (c ∷ p) s = ground (arith, matches-append p s)

matches-length : (p k : Bytes) → matches p k ≡ true → length p ≤ length k
unfolding matches
matches-length [] k h = omega arith
matches-length (c ∷ p) [] h = cc
matches-length (c ∷ p) (a ∷ k) h = ground (arith, matches-length p k)

-- The test of the length adds nothing to the loop.
has_prefix_eq : (p k : Bytes) → has_prefix p k ≡ matches p k
unfolding has_prefix
has_prefix_eq p k = ground (arith, matches-length p k)

pub key_task-has_prefix : (id : ℕ) → has_prefix task_key_prefix (key_task id) ≡ true
unfolding key_task
key_task-has_prefix id = has_prefix_eq _ _ ∙ matches-append task_key_prefix (put_uint64 id)

-- Behind a key that is not in front of the prefix and has it not, no key has it.
matches-behind :
    (p k j : Bytes)
    → matches p k ≡ false
    → compare_bytes k p ≢ Ordering.lt
    → Below k j
    → matches p j ≡ false
unfolding matches compare_bytes
matches-behind [] k j h a b = cc
matches-behind (c ∷ p) [] j h a b = absurd (a refl)
matches-behind (c ∷ p) (x ∷ k) [] h a b = refl
matches-behind (c ∷ p) (x ∷ k) (y ∷ j) h a b = ground (arith, matches-behind p k j)

pub has_prefix-behind :
    (p k j : Bytes)
    → has_prefix p k ≡ false
    → compare_bytes k p ≢ Ordering.lt
    → Below k j
    → has_prefix p j ≡ false
has_prefix-behind p k j h a b =
    has_prefix_eq p j ∙ matches-behind p k j (sym (has_prefix_eq p k) ∙ h) a b

compare-append : (p s t : Bytes) → compare_bytes (p ++ s) (p ++ t) ≡ compare_bytes s t
unfolding compare_bytes
compare-append [] s t = refl
compare-append (c ∷ p) s t = ground (arith, compare-append p s t)

compare-append_self : (p s : Bytes) → compare_bytes (p ++ s) p ≢ Ordering.lt
unfolding compare_bytes
compare-append_self [] [] h = cc
compare-append_self [] (c ∷ s) h = cc
compare-append_self (c ∷ p) s h = ground (arith, compare-append_self p s)

pub key_task-at_prefix : (id : ℕ) → compare_bytes (key_task id) task_key_prefix ≢ Ordering.lt
unfolding key_task
key_task-at_prefix id = compare-append_self task_key_prefix (put_uint64 id)

-- The keys of the tasks are in the order of the ids.
pub key_task-Below : (a b : ℕ) → IsU64 a → IsU64 b → Below (key_task a) (key_task b) → a < b
unfolding key_task
key_task-Below a b ha hb h =
    let c : compare a b ≡ Ordering.lt =
      sym (
        compare-append task_key_prefix (put_uint64 a) (put_uint64 b) ∙ compare-put_uint64 a b ha hb)
      ∙ h in
    ground arith

-- The pairs from `start` on.
abbrev pub NotBefore : Bytes → Kv → Type 0
NotBefore start [] = Unit
NotBefore start ((k, v) ∷ m) = (compare_bytes k start ≢ Ordering.lt) × NotBefore start m

pub from-NotBefore : (start : Bytes) (m : Kv) → NotBefore start (from start m)
unfolding from
from-NotBefore start [] = tt
from-NotBefore start ((k, v) ∷ m) = ground (arith, from-NotBefore start m)

Above-from : (start k : Bytes) (m : Kv) → Above k m → Above k (from start m)
unfolding from
Above-from start k [] a = tt
Above-from start k ((j, v) ∷ m) a = ground (arith, Above-from start k m)

pub from-IsSorted : (start : Bytes) (m : Kv) → IsSorted m → IsSorted (from start m)
unfolding from
from-IsSorted start [] s = tt
from-IsSorted start ((j, v) ∷ m) s = ground (arith, from-IsSorted start m, Above-from start j m)

pub lookup-from :
    (start k : Bytes) (m : Kv)
    → compare_bytes k start ≢ Ordering.lt
    → lookup k (from start m) ≡ lookup k m
unfolding from lookup
lookup-from start k [] h = refl
lookup-from start k ((j, v) ∷ m) h = ground (arith, lookup-from start k m, bytes_eq_iff j k)
