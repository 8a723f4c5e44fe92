-- ===== src/Taskreg/Protowire.antt =====
-- What the generated messages use of google.golang.org/protobuf/encoding/protowire.
use poc_cometbft.Prelude.{ℕ, ◌<◌, ◌≤◌, ◌≡◌, [], ◌++◌, Option, some, length}
use poc_cometbft.Bytes.{Bytes}
use poc_cometbft.Bytes.BigEndian.{IsU64}
use poc_cometbft.Taskreg.Types.{IsText}

-- A `Consume` function returns none in place of a negative count of bytes.
pub record Protowire : Type 0 where
  pub varint_type : ℕ
  pub bytes_type : ℕ
  pub append_tag : Bytes → ℕ → ℕ → Bytes
  pub append_varint : Bytes → ℕ → Bytes
  pub append_bytes : Bytes → Bytes → Bytes
  pub size_tag : ℕ → ℕ
  pub size_varint : ℕ → ℕ
  pub size_bytes : ℕ → ℕ
  pub consume_tag : Bytes → Option (ℕ × ℕ × ℕ)
  pub consume_varint : Bytes → Option (ℕ × ℕ)
  pub consume_bytes : Bytes → Option (Bytes × ℕ)
  pub consume_field_value : ℕ → ℕ → Bytes → Option ℕ

-- The field numbers of the messages.
abbrev pub IsNumber : ℕ → Type 0
IsNumber num = (0 < num) × (num < 16)

-- What its documentation promises: an `Append` writes behind what is there as many bytes as its
-- `Size` says, a `Consume` reads back what an `Append` wrote, never past the end, and a tag is not empty.
pub record WireLaws (w : Protowire) : Type 0 where
  pub append_tag_lem :
      (b : Bytes) (num typ : ℕ) → w.append_tag b num typ ≡ b ++ w.append_tag [] num typ
  pub append_varint_lem : (b : Bytes) (v : ℕ) → w.append_varint b v ≡ b ++ w.append_varint [] v
  pub append_bytes_lem : (b v : Bytes) → w.append_bytes b v ≡ b ++ w.append_bytes [] v
  pub size_tag_lem : (num typ : ℕ) → length (w.append_tag [] num typ) ≡ w.size_tag num
  pub size_varint_lem : (v : ℕ) → length (w.append_varint [] v) ≡ w.size_varint v
  pub size_bytes_lem : (v : Bytes) → length (w.append_bytes [] v) ≡ w.size_bytes (length v)
  pub tag_pos : (num : ℕ) → 0 < w.size_tag num
  pub consume_varint-append :
      (num : ℕ) (rest : Bytes)
      → IsU64 num
      → w.consume_varint (w.append_varint [] num ++ rest) ≡ some (num, w.size_varint num)
  pub consume_bytes-append :
      (v rest : Bytes)
      → IsText v
      → w.consume_bytes (w.append_bytes [] v ++ rest) ≡ some (v, w.size_bytes (length v))
  pub consume_varint_tag :
      (num : ℕ) (rest : Bytes)
      → IsNumber num
      → w.consume_tag (w.append_tag [] num w.varint_type ++ rest)
        ≡ some (num, w.varint_type, w.size_tag num)
  pub consume_bytes_tag :
      (num : ℕ) (rest : Bytes)
      → IsNumber num
      → w.consume_tag (w.append_tag [] num w.bytes_type ++ rest)
        ≡ some (num, w.bytes_type, w.size_tag num)
  pub tag_within :
      (b : Bytes) (num typ n : ℕ) → w.consume_tag b ≡ some (num, typ, n) → (0 < n) × (n ≤ length b)
  pub varint_within : (b : Bytes) (v n : ℕ) → w.consume_varint b ≡ some (v, n) → n ≤ length b
  pub bytes_within : (b v : Bytes) (n : ℕ) → w.consume_bytes b ≡ some (v, n) → n ≤ length b
  pub value_within :
      (b : Bytes) (num typ n : ℕ) → w.consume_field_value num typ b ≡ some n → n ≤ length b
