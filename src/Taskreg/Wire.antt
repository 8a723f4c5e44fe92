-- ===== src/Taskreg/Wire.antt =====
-- The helpers of tx.pb.go, and the loop that every `Unmarshal` of the types' *.pb.go runs.
pub mod Messages
pub mod Steps
pub mod Appends
pub mod ReadBack
pub mod Nested
pub mod Sizes
pub mod Total
pub mod Leaves
pub mod Ranges
pub mod AsCodec
pub mod Lists
mod Examples
use poc_cometbft.Prelude.{
  ℕ, zero, suc, ◌+◌, List, [], ◌∷◌, ◌++◌, Bool, Option, none, some, Outcome, ok, err, panic, ◌>>=◌,
  if◌then◌else◌, ◌==◌, leb, length, drop,
}
use poc_cometbft.Bytes.{Bytes, bytes, bytes_eq}
use poc_cometbft.Taskreg.Protowire.{Protowire}

-- `b[n:]`.
unfoldable pub slice_from : ℕ → Bytes → Outcome Bytes Bytes
slice_from n b = if leb n (length b) then ok (drop n b) else panic

module _ (w : Protowire) where
  unfoldable pub append_string : Bytes → ℕ → Bytes → Bytes
  append_string b num s =
      if bytes_eq s [] then b else w.append_bytes (w.append_tag b num w.bytes_type) s

  unfoldable pub append_uint64 : Bytes → ℕ → ℕ → Bytes
  append_uint64 b num v = if v == 0 then b else w.append_varint (w.append_tag b num w.varint_type) v

  -- A field that is written even when it is empty.
  unfoldable pub append_message : Bytes → ℕ → Bytes → Bytes
  append_message b num bz = w.append_bytes (w.append_tag b num w.bytes_type) bz

  unfoldable pub size_string : ℕ → Bytes → ℕ
  size_string num s = if bytes_eq s [] then 0 else w.size_tag num + w.size_bytes (length s)

  unfoldable pub size_uint64 : ℕ → ℕ → ℕ
  size_uint64 num v = if v == 0 then 0 else w.size_tag num + w.size_varint v

  unfoldable pub skip_field : Bytes → ℕ → Outcome Bytes Bytes
  skip_field b typ = elim (w.consume_field_value 0 typ b) [
    | none ↦ err (bytes "invalid field")
    | some n ↦ slice_from n b
  ]

  -- The cases of a `switch num`, `m` being what the message is when the value has been set.
  module _ {A : Type 0} where
    unfoldable pub varint_field : Bytes → (ℕ → A) → Outcome Bytes (A × Bytes)
    varint_field b m = elim (w.consume_varint b) [
      | none ↦ err (bytes "bad varint")
      | some (v, n) ↦ do rest ← slice_from n b; ok (m v, rest)
    ]

    unfoldable pub string_field : Bytes → (Bytes → A) → Outcome Bytes (A × Bytes)
    string_field b m = elim (w.consume_bytes b) [
      | none ↦ err (bytes "bad string")
      | some (v, n) ↦ do rest ← slice_from n b; ok (m v, rest)
    ]

    unfoldable pub message_field : Bytes → (Bytes → Outcome Bytes A) → Outcome Bytes (A × Bytes)
    message_field b unmarshal = elim (w.consume_bytes b) [
      | none ↦ err (bytes "bad bytes")
      | some (bz, n) ↦ do m ← unmarshal bz; rest ← slice_from n b; ok (m, rest)
    ]

    unfoldable pub other_field : A → Bytes → ℕ → Outcome Bytes (A × Bytes)
    other_field m b typ = do rest ← skip_field b typ; ok (m, rest)

    -- `field` is the `switch num`. A loop that is out of fuel panics; the fuel is the count of bytes.
    module _ (field : A → ℕ → ℕ → Bytes → Outcome Bytes (A × Bytes)) where
      unfoldable pub unmarshal_loop : ℕ → A → Bytes → Outcome Bytes A
      unmarshal_loop fuel m [] = ok m
      unmarshal_loop zero m (c ∷ b) = panic
      unmarshal_loop (suc fuel) m (c ∷ b) = elim (w.consume_tag (c ∷ b)) [
        | none ↦ err (bytes "bad tag")
        | some (num, typ, n) ↦ do
          rest ← slice_from n (c ∷ b)
          read ← field m num typ rest
          unmarshal_loop fuel read.0 read.1
      ]

      unfoldable pub unmarshal : A → Bytes → Outcome Bytes A
      unfolding unmarshal_loop
      unmarshal m b = unmarshal_loop (length b) m b

-- `copy(dAtA, bz)` and the count that `MarshalTo` returns.
unfoldable pub copy : Bytes → Bytes → Bytes
copy [] bz = []
copy (c ∷ data_bytes) [] = c ∷ data_bytes
copy (c ∷ data_bytes) (d ∷ bz) = d ∷ copy data_bytes bz

unfoldable pub marshal_to : Bytes → Bytes → Bytes × ℕ
marshal_to data_bytes bz = (copy data_bytes bz, length bz)
