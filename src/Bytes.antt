-- ===== src/Bytes.antt =====
-- Byte slices and Go strings, both as lists of byte values, and what the code takes of Go's
-- standard library about them: equality, the order of keys, `encoding/binary` and `bytes.SplitN`.
pub mod Order
pub mod BigEndian
pub mod Split
pub mod Text
pub mod Wrap
pub mod ParseUint
pub mod Printed
use Prim.Native.Char.{code}
use Prim.Native.String.{String}
use poc_cometbft.Prelude.{ℕ, List, [], ◌∷◌, ◌≡◌, ◌↔◌, Bool, true, false, ◌==◌, ◌&&◌, ==_iff, arith}

abbrev pub Bytes : Type 0
Bytes = List ℕ

-- A string literal of the source, all of which are ASCII.
abbrev pub bytes : String → Bytes
bytes (String.◌∷◌ letter text) = let rest = bytes text in code letter ∷ rest
bytes String.[] = []

unfoldable pub bytes_eq : Bytes → Bytes → Bool
bytes_eq [] [] = true
bytes_eq (a ∷ s) (b ∷ t) = a == b && bytes_eq s t
bytes_eq _ _ = false

pub bytes_eq_iff : (s t : Bytes) → (bytes_eq s t ≡ true) ↔ (s ≡ t)
unfolding bytes_eq
bytes_eq_iff [] [] = ground arith
bytes_eq_iff [] (b ∷ t) = ground arith
bytes_eq_iff (a ∷ s) [] = ground arith
bytes_eq_iff (a ∷ s) (b ∷ t) = ground (arith, bytes_eq_iff s t, ==_iff a b)

pub bytes_eq_refl : (s : Bytes) → bytes_eq s s ≡ true
bytes_eq_refl s = (bytes_eq_iff s s).1 (λ i. s)
