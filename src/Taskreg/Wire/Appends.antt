-- ===== src/Taskreg/Wire/Appends.antt =====
-- The `append` helpers behind bytes that the loop of `Unmarshal` reads.
use mathlib.Core.Path.{subst}
use mathlib.Core.List.{append-nil, append_assoc}
use poc_cometbft.Prelude.{
  ℕ, ◌≡◌, refl, sym, ap, ◌∙◌, [], ◌++◌, Outcome, ok, ◌==◌, inl, inr, Bool-cases,
}
use poc_cometbft.Bytes.{Bytes, bytes_eq}
use poc_cometbft.Bytes.BigEndian.{IsU64}
use poc_cometbft.Taskreg.Types.{IsText}
use poc_cometbft.Taskreg.Protowire.{Protowire, WireLaws, IsNumber}
use poc_cometbft.Taskreg.Wire.{
  append_string, append_uint64, append_message, varint_field, string_field,
}
use poc_cometbft.Taskreg.Wire.Steps.{Steps, Steps-append, uint64-Steps, string-Steps, message-Steps}

-- The helpers write behind what is there.
module _ (w : Protowire) (l : WireLaws w) where
  append_tagged_lem :
      (b : Bytes) (num typ : ℕ) (q : Bytes)
      → w.append_tag b num typ ++ q ≡ b ++ (w.append_tag [] num typ ++ q)
  append_tagged_lem b num typ q =
      ap (λ p. p ++ q) (l.append_tag_lem b num typ) ∙ append_assoc b (w.append_tag [] num typ) q

  pub append_message_lem :
      (b : Bytes) (num : ℕ) (bz : Bytes)
      → append_message w b num bz ≡ b ++ append_message w [] num bz
  unfolding append_message
  append_message_lem b num bz =
      l.append_bytes_lem (w.append_tag b num w.bytes_type) bz
      ∙ append_tagged_lem b num w.bytes_type (w.append_bytes [] bz)
      ∙ ap (λ p. b ++ p) (sym (l.append_bytes_lem (w.append_tag [] num w.bytes_type) bz))

  pub append_varint_field_lem :
      (b : Bytes) (num v : ℕ)
      → w.append_varint (w.append_tag b num w.varint_type) v
        ≡ b ++ w.append_varint (w.append_tag [] num w.varint_type) v
  append_varint_field_lem b num v =
      l.append_varint_lem (w.append_tag b num w.varint_type) v
      ∙ append_tagged_lem b num w.varint_type (w.append_varint [] v)
      ∙ ap (λ p. b ++ p) (sym (l.append_varint_lem (w.append_tag [] num w.varint_type) v))

  pub append_uint64_lem :
      (b : Bytes) (num v : ℕ) → append_uint64 w b num v ≡ b ++ append_uint64 w [] num v
  unfolding append_uint64
  append_uint64_lem b num v = elim (Bool-cases (v == 0)) [
    | inl zero_value ↦ rw (zero_value, append-nil) refl
    | inr other ↦ rw other (append_varint_field_lem b num v)
  ]

  pub append_string_lem :
      (b : Bytes) (num : ℕ) (v : Bytes) → append_string w b num v ≡ b ++ append_string w [] num v
  unfolding append_string append_message
  append_string_lem b num v = elim (Bool-cases (bytes_eq v [])) [
    | inl empty ↦ rw (empty, append-nil) refl
    | inr other ↦ rw other (append_message_lem b num v)
  ]

-- A helper's call behind bytes that are read.
module _ (w : Protowire) (l : WireLaws w) {A : Type 0} where
  module _ (field : A → ℕ → ℕ → Bytes → Outcome Bytes (A × Bytes)) (start : A) (b : Bytes) (num : ℕ)
      (hn : IsNumber num) where
    pub then_uint64 :
        (m : ℕ → A) (v : ℕ)
        → IsU64 v
        → ((c : Bytes) → field (m 0) num w.varint_type c ≡ varint_field w c m)
        → Steps w field start b (m 0)
        → Steps w field start (append_uint64 w b num v) (m v)
    then_uint64 m v hv reads s =
        subst (λ c. Steps w field start c (m v)) (sym (append_uint64_lem w l b num v))
          (Steps-append w field start (m 0) (m v) b _ s
            (uint64-Steps w l field m num v hn hv reads))

    pub then_string :
        (m : Bytes → A) (v : Bytes)
        → IsText v
        → ((c : Bytes) → field (m []) num w.bytes_type c ≡ string_field w c m)
        → Steps w field start b (m [])
        → Steps w field start (append_string w b num v) (m v)
    then_string m v hv reads s =
        subst (λ c. Steps w field start c (m v)) (sym (append_string_lem w l b num v))
          (Steps-append w field start (m []) (m v) b _ s
            (string-Steps w l field m num v hn hv reads))

    pub then_message :
        (m₀ m : A) (bz : Bytes)
        → ((rest : Bytes) → field m₀ num w.bytes_type (w.append_bytes [] bz ++ rest) ≡ ok (m, rest))
        → Steps w field start b m₀
        → Steps w field start (append_message w b num bz) m
    then_message m₀ m bz reads s =
        subst (λ c. Steps w field start c m) (sym (append_message_lem w l b num bz))
          (Steps-append w field start m₀ m b _ s (message-Steps w l field m₀ m num bz hn reads))
