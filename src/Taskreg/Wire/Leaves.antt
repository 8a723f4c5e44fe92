-- ===== src/Taskreg/Wire/Leaves.antt =====
-- What a run of `Unmarshal` keeps of the message, whatever the bytes are: the cases of a `switch num`, and
-- the loop around them.
use poc_cometbft.Prelude.{
  ℕ, zero, suc, ◌≤◌, ◌≡◌, refl, [], ◌∷◌, Bool, some, Outcome, ok, err, panic, ◌>>=◌, if◌then◌else◌,
  leb, length, drop, arith, inl, inr, Option-cases, Bool-cases, ap, ok-injective,
}
use poc_cometbft.Bytes.{Bytes}
use poc_cometbft.Bytes.BigEndian.{IsU64}
use poc_cometbft.Taskreg.Types.{IsText}
use poc_cometbft.Taskreg.Protowire.{Protowire}
use poc_cometbft.Taskreg.Wire.{
  slice_from, skip_field, varint_field, string_field, message_field, other_field, unmarshal_loop,
  unmarshal,
}

-- The types that protowire's documentation gives: a varint is a uint64, and `ConsumeBytes` returns a
-- part of the bytes that it counts.
pub record WireRanges (w : Protowire) : Type 0 where
  pub varint_range : (b : Bytes) (v n : ℕ) → w.consume_varint b ≡ some (v, n) → IsU64 v
  pub bytes_range :
      (b v : Bytes) (n : ℕ) → w.consume_bytes b ≡ some (v, n) → (length v ≤ n) × (n ≤ length b)

length-drop-le : (n : ℕ) (b : Bytes) → length (drop n b) ≤ length b
length-drop-le zero b = omega arith
length-drop-le (suc n) [] = omega arith
length-drop-le (suc n) (c ∷ b) = omega (arith, length-drop-le n b)

slice-IsText :
    (n : ℕ) (b : Bytes) → IsText b → (rest : Bytes) → slice_from n b ≡ ok rest → IsText rest
unfolding slice_from
slice-IsText n b text rest h = elim (Bool-cases (leb n (length b))) [
  | inl within ↦ omega (arith, length-drop-le n b, ap length (ok-injective (rw within at h)), text)
  | inr past ↦ absurd (panic_or_ok (rw past at h))
]
  where
    panic_or_ok : ◌≡◌ {A = Outcome Bytes Bytes} panic (ok rest) → ⊥
    panic_or_ok e = cc

module _ {A : Type 0} (P : A → Type 0) where
  -- A result satisfies the predicate, if there is one.
  abbrev pub Results : Outcome Bytes A → Type 0
  Results (ok m) = P m
  Results (err e) = Unit
  Results panic = Unit

  -- So does what a field's case leaves, with a rest that is a text.
  abbrev pub Leaves : Outcome Bytes (A × Bytes) → Type 0
  Leaves (ok (m, b)) = P m × IsText b
  Leaves (err e) = Unit
  Leaves panic = Unit

  pub if-Leaves :
      (c : Bool) (x y : Outcome Bytes (A × Bytes))
      → Leaves x
      → Leaves y
      → Leaves (if c then x else y)
  if-Leaves Bool.true x y h h' = h
  if-Leaves Bool.false x y h h' = h'

  rest-Leaves :
      (n : ℕ) (b : Bytes) (m : A)
      → IsText b
      → P m
      → Leaves (slice_from n b >>= (λ rest. ok (m, rest)))
  rest-Leaves n b m text h = after (slice_from n b) (slice-IsText n b text)
    where
      after :
          (o : Outcome Bytes Bytes)
          → ((rest : Bytes) → o ≡ ok rest → IsText rest)
          → Leaves (o >>= (λ rest. ok (m, rest)))
      after (ok rest) h' = (h, h' rest refl)
      after (err e) h' = tt
      after panic h' = tt

  module _ (w : Protowire) (r : WireRanges w) where
    pub varint_field-Leaves :
        (b : Bytes) (m : ℕ → A)
        → IsText b
        → ((v : ℕ) → IsU64 v → P (m v))
        → Leaves (varint_field w b m)
    unfolding varint_field
    varint_field-Leaves b m text h = elim (Option-cases (w.consume_varint b)) [
      | inl none_read ↦ rw (none_read, varint_field) tt
      | inr ((v, n), e) ↦
          rw (e, varint_field) (rest-Leaves n b (m v) text (h v (r.varint_range b v n e)))
    ]

    pub string_field-Leaves :
        (b : Bytes) (m : Bytes → A)
        → IsText b
        → ((v : Bytes) → IsText v → P (m v))
        → Leaves (string_field w b m)
    unfolding string_field
    string_field-Leaves b m text h = elim (Option-cases (w.consume_bytes b)) [
      | inl none_read ↦ rw (none_read, string_field) tt
      | inr ((v, n), e) ↦
          rw (e, string_field)
            (rest-Leaves n b (m v) text (h v (omega (arith, r.bytes_range b v n e))))
    ]

    pub other_field-Leaves :
        (m : A) (b : Bytes) (typ : ℕ) → IsText b → P m → Leaves (other_field w m b typ)
    unfolding other_field skip_field
    other_field-Leaves m b typ text h = elim (Option-cases (w.consume_field_value 0 typ b)) [
      | inl none_read ↦ rw (none_read, skip_field) tt
      | inr (n, e) ↦ rw (e, skip_field) (rest-Leaves n b m text h)
    ]

    pub message_field-Leaves :
        (b : Bytes) (read : Bytes → Outcome Bytes A)
        → IsText b
        → ((bz : Bytes) → IsText bz → Results (read bz))
        → Leaves (message_field w b read)
    unfolding message_field
    message_field-Leaves b read text h = elim (Option-cases (w.consume_bytes b)) [
      | inl none_read ↦ rw (none_read, message_field) tt
      | inr ((v, n), e) ↦
          rw (e, message_field) (after (read v) n (h v (omega (arith, r.bytes_range b v n e))))
    ]
      where
        after :
            (o : Outcome Bytes A) (n : ℕ)
            → Results o
            → Leaves (o >>= λ m. slice_from n b >>= λ rest. ok (m, rest))
        after (ok m) n h = rest-Leaves n b m text h
        after (err e) n h = tt
        after panic n h = tt

    module _ (field : A → ℕ → ℕ → Bytes → Outcome Bytes (A × Bytes))
        (leaves : (m : A) (num typ : ℕ) (b : Bytes)
          → P m
          → IsText b
          → Leaves (field m num typ b)) where
      after_field :
          (fuel : ℕ) (o : Outcome Bytes (A × Bytes))
          → Leaves o
          → ((m : A) (b : Bytes) → P m → IsText b → Results (unmarshal_loop w field fuel m b))
          → Results (o >>= λ read. unmarshal_loop w field fuel read.0 read.1)
      after_field fuel (ok (m, b)) h again = again m b h.0 h.1
      after_field fuel (err e) h again = tt
      after_field fuel panic h again = tt

      after_tag :
          (fuel num typ : ℕ) (m : A) (o : Outcome Bytes Bytes)
          → P m
          → ((rest : Bytes) → o ≡ ok rest → IsText rest)
          → ((m : A) (b : Bytes) → P m → IsText b → Results (unmarshal_loop w field fuel m b))
          → Results (
              o >>= λ rest.
              field m num typ rest >>= λ read. unmarshal_loop w field fuel read.0 read.1)
      after_tag fuel num typ m (ok rest) h text again =
          after_field fuel (field m num typ rest) (leaves m num typ rest h (text rest refl)) again
      after_tag fuel num typ m (err e) h text again = tt
      after_tag fuel num typ m panic h text again = tt

      loop-Results :
          (fuel : ℕ) (m : A) (b : Bytes)
          → P m
          → IsText b
          → Results (unmarshal_loop w field fuel m b)
      unfolding unmarshal_loop
      loop-Results fuel m [] h text = h
      loop-Results zero m (c ∷ b) h text = tt
      loop-Results (suc fuel) m (c ∷ b) h text = elim (Option-cases (w.consume_tag (c ∷ b))) [
        | inl none_read ↦ rw (none_read, unmarshal_loop) tt
        | inr ((num, typ, n), e) ↦
            rw (e, unmarshal_loop)
              (after_tag fuel num typ m (slice_from n (c ∷ b)) h (slice-IsText n (c ∷ b) text)
                (λ m' b'. loop-Results fuel m' b'))
      ]

      pub unmarshal-Results : (m : A) (b : Bytes) → P m → IsText b → Results (unmarshal w field m b)
      unfolding unmarshal
      unmarshal-Results m b h text = loop-Results (length b) m b h text
