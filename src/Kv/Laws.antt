-- ===== src/Kv/Laws.antt =====
-- Lookups after writes, and pairs in key order as a canonical form.
use poc_cometbft.Prelude.{
  [], ◌∷◌, false, none, some, ◌≡◌, refl, ◌∙◌, sym, if◌then◌else◌, arith, inl, inr,
}
use poc_cometbft.Bytes.{Bytes, bytes_eq, bytes_eq_iff, bytes_eq_refl}
use poc_cometbft.Bytes.Order.{
  Below, compare_bytes_eq, compare_bytes_refl, compare_bytes_gt, Below-trans, compare_bytes_cases,
}
use poc_cometbft.Kv.{Kv, lookup, insert, Above, IsSorted}

pub lookup-insert :
    (key other value : Bytes) (pairs : Kv)
    → lookup other (insert key value pairs)
      ≡ (if bytes_eq key other then some value else lookup other pairs)
unfolding lookup insert
lookup-insert key other value [] = refl
lookup-insert key other value ((first, held) ∷ pairs) = ground (
  arith,
  compare_bytes_eq key first,
  compare_bytes_refl first,
  bytes_eq_iff first key,
  bytes_eq_iff first other,
  bytes_eq_iff key other,
  lookup-insert key other value pairs,
)

Above-insert : (i k v : Bytes) (m : Kv) → Below i k → Above i m → Above i (insert k v m)
unfolding insert
Above-insert i k v [] h a = (h, tt)
Above-insert i k v ((j, w) ∷ m) h a = ground (arith, Above-insert i k v m)

Above-trans : (i k : Bytes) (m : Kv) → Below i k → Above k m → Above i m
Above-trans i k [] h a = tt
Above-trans i k ((j, w) ∷ m) h a = (Below-trans i k j h a.0, Above-trans i k m h a.1)

pub insert-IsSorted : (k v : Bytes) (m : Kv) → IsSorted m → IsSorted (insert k v m)
unfolding insert
insert-IsSorted k v [] s = (tt, tt)
insert-IsSorted k v ((j, w) ∷ m) s = ground (
  arith,
  insert-IsSorted k v m,
  Above-insert j k v m,
  Above-trans k j m,
  compare_bytes_gt k j,
  compare_bytes_eq k j,
)

Below-irrefl : (k : Bytes) → Below k k → ⊥
Below-irrefl k h = cc (compare_bytes_refl k)

pub bytes_eq-Below : (k j : Bytes) → Below k j → bytes_eq k j ≡ false
bytes_eq-Below k j h = ground (arith, bytes_eq_iff k j, Below-irrefl k)

pub bytes_eq-Below' : (k j : Bytes) → Below k j → bytes_eq j k ≡ false
bytes_eq-Below' k j h = ground (arith, bytes_eq_iff j k, Below-irrefl k)

-- A key in front of all others is not among them.
pub lookup-Above : (k : Bytes) (m : Kv) → Above k m → lookup k m ≡ none
unfolding lookup
lookup-Above k [] a = refl
lookup-Above k ((j, w) ∷ m) a = rw (bytes_eq-Below' k j a.0) (lookup-Above k m a.1)

none-ne-some : {v : Bytes} → none ≡ some v → ⊥
none-ne-some h = cc

lookup_head : (j w : Bytes) (m : Kv) → lookup j ((j, w) ∷ m) ≡ some w
unfolding lookup
lookup_head j w m = rw bytes_eq_refl refl

-- What two lists with the same first key find, their tails find too.
lookup_tail :
    (i v j w : Bytes) (m n : Kv)
    → i ≡ j
    → Above i m
    → Above j n
    → ((k : Bytes) → lookup k ((i, v) ∷ m) ≡ lookup k ((j, w) ∷ n))
    → (k : Bytes) → lookup k m ≡ lookup k n
unfolding lookup
lookup_tail i v j w m n e a b h k =
    ground (arith, h k, bytes_eq_iff i k, bytes_eq_iff j k, lookup-Above i m, lookup-Above j n)

same_first :
    (i v j w : Bytes) (m n : Kv)
    → i ≡ j
    → lookup i ((i, v) ∷ m) ≡ lookup i ((j, w) ∷ n)
    → m ≡ n
    → ◌≡◌ {A = Kv} ((i, v) ∷ m) ((j, w) ∷ n)
unfolding lookup
same_first i v j w m n e h t = ground (arith, bytes_eq_iff j i, bytes_eq_refl i)

-- A list whose first key is in front of another's finds it, and the other does not.
first_differs :
    (i v j w : Bytes) (m n : Kv)
    → Below i j
    → Above j n
    → lookup i ((i, v) ∷ m) ≡ lookup i ((j, w) ∷ n)
    → ⊥
first_differs i v j w m n b a h =
    none-ne-some
      (sym (lookup-Above i ((j, w) ∷ n) (b, Above-trans i j n b a)) ∙ sym h ∙ lookup_head i v m)

-- Pairs in key order are determined by what a lookup finds.
pub sorted_ext :
    (m n : Kv) → IsSorted m → IsSorted n → ((k : Bytes) → lookup k m ≡ lookup k n) → m ≡ n
unfolding lookup
sorted_ext [] [] s t h = refl
sorted_ext [] ((j, w) ∷ n) s t h = absurd (none-ne-some (h j ∙ lookup_head j w n))
sorted_ext ((i, v) ∷ m) [] s t h = absurd (none-ne-some (sym (h i) ∙ lookup_head i v m))
sorted_ext ((i, v) ∷ m) ((j, w) ∷ n) s t h = elim (compare_bytes_cases i j) [
  | inl below ↦ absurd (first_differs i v j w m n below t.0 (h i))
  | inr (inl above) ↦ absurd (first_differs j w i v n m above s.0 (sym (h j)))
  | inr (inr same) ↦
      same_first i v j w m n same (h i)
        (sorted_ext m n s.1 t.1 (lookup_tail i v j w m n same s.0 t.0 h))
]
