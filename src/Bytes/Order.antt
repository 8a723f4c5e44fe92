-- ===== src/Bytes/Order.antt =====
-- The order in which Badger and the SDK's store keep their keys: `bytes.Compare`.
use poc_cometbft.Prelude.{[], ◌∷◌, ◌≡◌, refl, compare, Ordering, ◌⊎◌, arith}
use poc_cometbft.Bytes.{Bytes}

unfoldable pub compare_bytes : Bytes → Bytes → Ordering
compare_bytes [] [] = Ordering.eq
compare_bytes [] (b ∷ t) = Ordering.lt
compare_bytes (a ∷ s) [] = Ordering.gt
compare_bytes (a ∷ s) (b ∷ t) =
    let rest = compare_bytes s t in
    elim (compare a b) [
      | Ordering.lt ↦ Ordering.lt
      | Ordering.eq ↦ rest
      | Ordering.gt ↦ Ordering.gt
    ]

abbrev pub Below : Bytes → Bytes → Type 0
Below s t = compare_bytes s t ≡ Ordering.lt

pub compare_bytes_eq : (s t : Bytes) → compare_bytes s t ≡ Ordering.eq → s ≡ t
unfolding compare_bytes
compare_bytes_eq [] [] h = refl
compare_bytes_eq [] (b ∷ t) h = cc
compare_bytes_eq (a ∷ s) [] h = cc
compare_bytes_eq (a ∷ s) (b ∷ t) h = ground (arith, compare_bytes_eq s t)

pub compare_bytes_refl : (s : Bytes) → compare_bytes s s ≡ Ordering.eq
unfolding compare_bytes
compare_bytes_refl [] = refl
compare_bytes_refl (a ∷ s) = ground (arith, compare_bytes_refl s)

pub compare_bytes_gt : (s t : Bytes) → compare_bytes s t ≡ Ordering.gt → Below t s
unfolding compare_bytes
compare_bytes_gt [] [] h = cc
compare_bytes_gt [] (b ∷ t) h = cc
compare_bytes_gt (a ∷ s) [] h = refl
compare_bytes_gt (a ∷ s) (b ∷ t) h = ground (arith, compare_bytes_gt s t)

pub Below-trans : (s t u : Bytes) → Below s t → Below t u → Below s u
unfolding compare_bytes
Below-trans [] [] u h k = cc
Below-trans [] (b ∷ t) [] h k = cc
Below-trans [] (b ∷ t) (c ∷ u) h k = refl
Below-trans (a ∷ s) [] u h k = cc
Below-trans (a ∷ s) (b ∷ t) [] h k = cc
Below-trans (a ∷ s) (b ∷ t) (c ∷ u) h k = ground (arith, Below-trans s t u)

pub compare_bytes_cases : (s t : Bytes) → Below s t ⊎ Below t s ⊎ (s ≡ t)
compare_bytes_cases s t = ground (arith, compare_bytes_gt s t, compare_bytes_eq s t)
