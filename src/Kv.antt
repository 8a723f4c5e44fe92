-- ===== src/Kv.antt =====
-- The abstract content of a key-value store: its pairs, in the order of the keys. The interfaces of
-- Badger and of the SDK's store promise to behave as these functions do.
pub mod Laws
use poc_cometbft.Prelude.{
  List, [], ◌∷◌, Bool, true, false, Option, none, some, ◌≡◌, Ordering, if◌then◌else◌, arith,
}
use poc_cometbft.Bytes.{Bytes, bytes_eq}
use poc_cometbft.Bytes.Order.{compare_bytes, Below}

abbrev pub Kv : Type 0
Kv = List (Bytes × Bytes)

unfoldable pub lookup : Bytes → Kv → Option Bytes
lookup k [] = none
lookup k ((j, w) ∷ m) = if bytes_eq j k then some w else lookup k m

unfoldable pub insert : Bytes → Bytes → Kv → Kv
insert k v [] = (k, v) ∷ []
insert k v ((j, w) ∷ m) =
    let rest = insert k v m in
    elim (compare_bytes k j) [
      | Ordering.lt ↦ (k, v) ∷ (j, w) ∷ m
      | Ordering.eq ↦ (k, v) ∷ m
      | Ordering.gt ↦ (j, w) ∷ rest
    ]

-- The pairs whose key is `start` or behind it.
unfoldable pub from : Bytes → Kv → Kv
from start [] = []
from start ((j, w) ∷ m) =
    let rest = from start m in
    elim (compare_bytes j start) [
      | Ordering.lt ↦ rest
      | Ordering.eq ↦ (j, w) ∷ rest
      | Ordering.gt ↦ (j, w) ∷ rest
    ]

-- Every key of the pairs lies behind `k`.
abbrev pub Above : Bytes → Kv → Type 0
Above k [] = Unit
Above k ((j, w) ∷ m) = Below k j × Above k m

abbrev pub IsSorted : Kv → Type 0
IsSorted [] = Unit
IsSorted ((j, w) ∷ m) = Above j m × IsSorted m
