-- ===== src/Taskreg/Wire/Steps.antt =====
-- How the loop of `Unmarshal` runs over the bytes that an `append` helper wrote.
use mathlib.Core.Path.{subst}
use mathlib.Core.List.{append-nil, append_assoc}
use poc_cometbft.Prelude.{
  ℕ, zero, suc, ◌<◌, ◌≤◌, ◌≡◌, refl, sym, ap, ◌∙◌, [], ◌∷◌, ◌++◌, some, Outcome, ok, ◌==◌, ==_iff,
  length, length-append, drop, arith, inl, inr, Bool-cases,
}
use poc_cometbft.Bytes.{Bytes, bytes_eq, bytes_eq_iff}
use poc_cometbft.Bytes.BigEndian.{IsU64}
use poc_cometbft.Taskreg.Types.{IsText}
use poc_cometbft.Taskreg.Protowire.{Protowire, WireLaws, IsNumber}
use poc_cometbft.Taskreg.Wire.{
  slice_from, append_string, append_uint64, append_message, varint_field, string_field,
  message_field, unmarshal_loop, unmarshal,
}

drop-append : (p rest : Bytes) → drop (length p) (p ++ rest) ≡ rest
drop-append [] rest = refl
drop-append (c ∷ p) rest = drop-append p rest

slice_from-append : (p rest : Bytes) → slice_from (length p) (p ++ rest) ≡ ok rest
unfolding slice_from
slice_from-append p rest = ground (arith, length-append p rest, drop-append p rest)

module _ (w : Protowire) {A : Type 0} (field : A → ℕ → ℕ → Bytes → Outcome Bytes (A × Bytes)) where
  abbrev loop : ℕ → A → Bytes → Outcome Bytes A
  loop = unmarshal_loop w field

  -- With fuel enough, the loop reads the bytes `p` ahead of any others and makes `m` into `m'`.
  abbrev pub Steps : A → Bytes → A → Type 0
  Steps m p m' =
      (rest : Bytes) (fuel : ℕ)
      → length (p ++ rest) ≤ fuel
      → (left : ℕ) × (length rest ≤ left) × (loop fuel m (p ++ rest) ≡ loop left m' rest)

  pub Steps-nil : (m : A) → Steps m [] m
  Steps-nil m rest fuel h = (fuel, h, refl)

  pub Steps-append :
      (m m' m'' : A) (p q : Bytes) → Steps m p m' → Steps m' q m'' → Steps m (p ++ q) m''
  Steps-append m m' m'' p q s t rest fuel h =
      let (mid, h', e) =
        s (q ++ rest) fuel (subst (λ b. length b ≤ fuel) (append_assoc p q rest) h) in
      let (left, h'', e') = t rest mid h' in
      (left, h'', ap (loop fuel m) (append_assoc p q rest) ∙ e ∙ e')

  loop_step :
      (fuel : ℕ) (m m' : A) (b b' b'' : Bytes) (num typ n : ℕ)
      → 0 < length b
      → w.consume_tag b ≡ some (num, typ, n)
      → slice_from n b ≡ ok b'
      → field m num typ b' ≡ ok (m', b'')
      → loop (suc fuel) m b ≡ loop fuel m' b''
  unfolding unmarshal_loop
  loop_step fuel m m' [] b' b'' num typ n pos e f g = absurd (omega (arith, pos))
  loop_step fuel m m' (c ∷ b) b' b'' num typ n pos e f g = rw (e, f, g, unmarshal_loop) refl

  pub field_step :
      (m m' : A) (tag p : Bytes) (num typ : ℕ)
      → 0 < length tag
      → ((rest : Bytes) → w.consume_tag (tag ++ rest) ≡ some (num, typ, length tag))
      → ((rest : Bytes) → field m num typ (p ++ rest) ≡ ok (m', rest))
      → Steps m (tag ++ p) m'
  field_step m m' tag p num typ pos tagged read rest zero h =
      absurd (omega (arith, pos, length-append (tag ++ p) rest, length-append tag p, h))
  field_step m m' tag p num typ pos tagged read rest (suc fuel) h = (
    fuel,
    omega (arith, pos, length-append (tag ++ p) rest, length-append tag p, h),
    ap (loop (suc fuel) m) (append_assoc tag p rest)
        ∙ loop_step fuel m m' (tag ++ (p ++ rest)) (p ++ rest) rest num typ (length tag)
            (omega (arith, pos, length-append tag (p ++ rest))) (tagged (p ++ rest))
            (slice_from-append tag (p ++ rest)) (read rest),
  )

  -- The bytes are the whole message.
  pub unmarshal-Steps : (m m' : A) (p : Bytes) → Steps m p m' → unmarshal w field m p ≡ ok m'
  unfolding unmarshal unmarshal_loop
  unmarshal-Steps m m' p s =
      let (left, h, e) =
        s [] (length p) (subst (λ b. length b ≤ length p) (sym (append-nil p)) (omega arith)) in
      ap (loop (length p) m) (sym (append-nil p)) ∙ e

module _ (w : Protowire) (l : WireLaws w) {A : Type 0} where
  varint_read :
      (v : ℕ) (m : ℕ → A) (rest : Bytes)
      → IsU64 v
      → varint_field w (w.append_varint [] v ++ rest) m ≡ ok (m v, rest)
  unfolding varint_field
  varint_read v m rest h =
      rw
        (
          l.consume_varint-append v rest h,
          sym (l.size_varint_lem v),
          slice_from-append,
          varint_field,
        )
        refl

  bytes_read :
      (v : Bytes) (m : Bytes → A) (rest : Bytes)
      → IsText v
      → string_field w (w.append_bytes [] v ++ rest) m ≡ ok (m v, rest)
  unfolding string_field
  bytes_read v m rest h =
      rw
        (l.consume_bytes-append v rest h, sym (l.size_bytes_lem v), slice_from-append, string_field)
        refl

  pub message_read :
      (v : Bytes) (read : Bytes → Outcome Bytes A) (m : A) (rest : Bytes)
      → IsText v
      → read v ≡ ok m
      → message_field w (w.append_bytes [] v ++ rest) read ≡ ok (m, rest)
  unfolding message_field
  message_read v read m rest h e =
      rw
        (
          l.consume_bytes-append v rest h,
          sym (l.size_bytes_lem v),
          slice_from-append,
          e,
          message_field,
        )
        refl

  module _ (field : A → ℕ → ℕ → Bytes → Outcome Bytes (A × Bytes)) where
    tag-Steps :
        (m₀ m : A) (num typ : ℕ) (p : Bytes)
        → ((rest : Bytes)
            → w.consume_tag (w.append_tag [] num typ ++ rest) ≡ some (num, typ, w.size_tag num))
        → ((rest : Bytes) → field m₀ num typ (p ++ rest) ≡ ok (m, rest))
        → Steps w field m₀ (w.append_tag [] num typ ++ p) m
    tag-Steps m₀ m num typ p tagged reads =
        field_step w field m₀ m (w.append_tag [] num typ) p num typ
          (omega (arith, l.size_tag_lem num typ, l.tag_pos num))
          (λ rest. tagged rest ∙ ap (λ n. some (num, typ, n)) (sym (l.size_tag_lem num typ))) reads

    pub varint-Steps :
        (m : ℕ → A) (m₀ : A) (num v : ℕ)
        → IsNumber num
        → IsU64 v
        → ((b : Bytes) → field m₀ num w.varint_type b ≡ varint_field w b m)
        → Steps w field m₀ (w.append_varint (w.append_tag [] num w.varint_type) v) (m v)
    varint-Steps m m₀ num v hn hv reads =
        subst (λ b. Steps w field m₀ b (m v))
          (sym (l.append_varint_lem (w.append_tag [] num w.varint_type) v))
          (tag-Steps m₀ (m v) num w.varint_type (w.append_varint [] v)
            (λ rest. l.consume_varint_tag num rest hn) (λ rest. reads _ ∙ varint_read v m rest hv))

    -- A message inside the message.
    pub message-Steps :
        (m₀ m : A) (num : ℕ) (bz : Bytes)
        → IsNumber num
        → ((rest : Bytes) → field m₀ num w.bytes_type (w.append_bytes [] bz ++ rest) ≡ ok (m, rest))
        → Steps w field m₀ (append_message w [] num bz) m
    unfolding append_message
    message-Steps m₀ m num bz hn reads =
        subst (λ b. Steps w field m₀ b m)
          (sym (l.append_bytes_lem (w.append_tag [] num w.bytes_type) bz))
          (tag-Steps m₀ m num w.bytes_type (w.append_bytes [] bz)
            (λ rest. l.consume_bytes_tag num rest hn) reads)

    -- What the helpers append, read back: the field of the empty value is not written.
    pub uint64-Steps :
        (m : ℕ → A) (num v : ℕ)
        → IsNumber num
        → IsU64 v
        → ((b : Bytes) → field (m 0) num w.varint_type b ≡ varint_field w b m)
        → Steps w field (m 0) (append_uint64 w [] num v) (m v)
    unfolding append_uint64
    uint64-Steps m num v hn hv reads = elim (Bool-cases (v == 0)) [
      | inl zero_value ↦ rw zero_value (
          subst (λ n. Steps w field (m 0) [] (m n)) (sym ((==_iff v 0).0 zero_value))
            (Steps-nil w field (m 0)))
      | inr other ↦ rw other (varint-Steps m (m 0) num v hn hv reads)
    ]

    pub string-Steps :
        (m : Bytes → A) (num : ℕ) (v : Bytes)
        → IsNumber num
        → IsText v
        → ((b : Bytes) → field (m []) num w.bytes_type b ≡ string_field w b m)
        → Steps w field (m []) (append_string w [] num v) (m v)
    unfolding append_string append_message
    string-Steps m num v hn hv reads = elim (Bool-cases (bytes_eq v [])) [
      | inl empty ↦ rw empty (
          subst (λ u. Steps w field (m []) [] (m u)) (sym ((bytes_eq_iff v []).0 empty))
            (Steps-nil w field (m [])))
      | inr other ↦
          rw other (message-Steps (m []) (m v) num v hn (λ rest. reads _ ∙ bytes_read v m rest hv))
    ]
