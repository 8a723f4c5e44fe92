-- ===== src/Taskreg/Memory.antt =====
-- A store that keeps its pairs in memory, and a wire format that writes each number as one item:
-- they meet the laws, so the assumptions of the theorems can hold.
use mathlib.Core.Option.{some-injective}
use poc_cometbft.Prelude.{
  ℕ, zero, suc, ◌+◌, ◌*◌, ◌/◌, ◌%◌, ◌<◌, ◌≤◌, [], ◌∷◌, ◌++◌, ◌≡◌, refl, ap, ◌∙◌, Option, none, some,
  ok, if◌then◌else◌, ◌==◌, ◌^◌, leb, ltb, length, length-append, take, arith, inl, inr, Bool-cases,
}
use poc_cometbft.Bytes.{Bytes}
use poc_cometbft.Bytes.BigEndian.{IsU64}
use poc_cometbft.Kv.{Kv, lookup, insert, from, IsSorted}
use poc_cometbft.Kv.Laws.{insert-IsSorted}
use poc_cometbft.Taskreg.Store.{KvStoreService, StoreLaws, Codec, CodecLaws}
use poc_cometbft.Taskreg.Protowire.{Protowire, WireLaws}
use poc_cometbft.Taskreg.Wire.Leaves.{WireRanges}
use poc_cometbft.Taskreg.Wire.AsCodec.{wire_codec, wire_codec-laws}

pub record Store : Type 0 where
  pub pairs : Kv
  pub sorted : IsSorted pairs

abbrev pub empty : Store
empty = record { pairs = []; sorted = tt }

abbrev pub store : KvStoreService
store = record {
  Store = Store;
  Fault = Unit;
  get = λ st k. ok (lookup k st.pairs);
  set = λ st k v. record {
    pairs = insert k v st.pairs;
    sorted = insert-IsSorted k v st.pairs st.sorted;
  };
  iterator = λ st start. ok (from start st.pairs);
}

abbrev pub store-laws : StoreLaws store
store-laws = record {
  pairs = λ st. st.pairs;
  pairs-IsSorted = λ st. st.sorted;
  get_lem = λ st k. refl;
  set_lem = λ st k v. refl;
  iterator_lem = λ st start. refl;
}

abbrev pub read_tag : Bytes → Option (ℕ × ℕ × ℕ)
read_tag [] = none
read_tag (c ∷ b) = some (c / 8, c % 8, 1)

abbrev pub read_number : Bytes → Option (ℕ × ℕ)
read_number [] = none
read_number (v ∷ b) = if ltb v (2 ^ 64) then some (v, 1) else none

abbrev pub read_bytes : Bytes → Option (Bytes × ℕ)
read_bytes [] = none
read_bytes (n ∷ b) = if leb n (length b) then some (take n b, suc n) else none

abbrev pub count : {A : Type 0} → Option (A × ℕ) → Option ℕ
count none = none
count (some (v, n)) = some n

abbrev pub read_value : ℕ → Bytes → Option ℕ
read_value typ b = if typ == 0 then count (read_number b) else count (read_bytes b)

abbrev pub wire : Protowire
wire = record {
  varint_type = 0;
  bytes_type = 2;
  append_tag = λ b num typ. b ++ ((num * 8 + typ) ∷ []);
  append_varint = λ b v. b ++ (v ∷ []);
  append_bytes = λ b v. b ++ (length v ∷ v);
  size_tag = λ num. 1;
  size_varint = λ v. 1;
  size_bytes = λ n. suc n;
  consume_tag = read_tag;
  consume_varint = read_number;
  consume_bytes = read_bytes;
  consume_field_value = λ num typ b. read_value typ b;
}

take-append : (v rest : Bytes) → take (length v) (v ++ rest) ≡ v
take-append [] rest = refl
take-append (c ∷ v) rest = ap (λ r. c ∷ r) (take-append v rest)

pub read_bytes-append :
    (v rest : Bytes) → read_bytes (length v ∷ (v ++ rest)) ≡ some (v, suc (length v))
read_bytes-append v rest = ground (arith, length-append v rest, take-append v rest)

pub read_tag-append :
    (num typ : ℕ) (rest : Bytes) → typ < 8 → read_tag ((num * 8 + typ) ∷ rest) ≡ some (num, typ, 1)
read_tag-append num typ rest h = ground arith

pub tag_within :
    (b : Bytes) (num typ n : ℕ) → read_tag b ≡ some (num, typ, n) → (0 < n) × (n ≤ length b)
tag_within [] num typ n h = cc
tag_within (c ∷ b) num typ n h =
    let e : 1 ≡ n = ap (λ r. r.2) (some-injective _ _ h) in (omega (arith, e), omega (arith, e))

pub read_number-lt : (v : ℕ) (b : Bytes) → IsU64 v → read_number (v ∷ b) ≡ some (v, 1)
read_number-lt v b h = ground arith

pub read_number_lem : (b : Bytes) (v n : ℕ) → read_number b ≡ some (v, n) → (n ≤ length b) × IsU64 v
read_number_lem [] v n h = cc
read_number_lem (c ∷ b) v n h = ground arith

pub number_within : (b : Bytes) (v n : ℕ) → read_number b ≡ some (v, n) → n ≤ length b
number_within b v n h = (read_number_lem b v n h).0

pub bytes_within : (b v : Bytes) (n : ℕ) → read_bytes b ≡ some (v, n) → n ≤ length b
bytes_within [] v n h = cc
bytes_within (c ∷ b) v n h = elim (Bool-cases (leb c (length b))) [
  | inl fits ↦
      let e : suc c ≡ n = ap (λ r. r.1) (some-injective _ _ (rw fits at h)) in
      ground (arith, e, fits)
  | inr short ↦ cc (rw short at h)
]

pub value_within : (b : Bytes) (num typ n : ℕ) → read_value typ b ≡ some n → n ≤ length b
value_within b num typ n h = elim (Bool-cases (typ == 0)) [
  | inl varint ↦ number_count b n (rw varint at h)
  | inr other ↦ bytes_count b n (rw other at h)
]
  where
    number_count : (b : Bytes) (n : ℕ) → count (read_number b) ≡ some n → n ≤ length b
    number_count [] n h = cc
    number_count (c ∷ b) n h = ground arith

    counted :
        (b : Bytes) (n : ℕ) (r : Option (Bytes × ℕ))
        → read_bytes b ≡ r
        → count r ≡ some n
        → n ≤ length b
    counted b n none e h = cc
    counted b n (some (v, k)) e h =
        bytes_within b v n (e ∙ ap (λ j. some (v, j)) (some-injective _ _ h))

    bytes_count : (b : Bytes) (n : ℕ) → count (read_bytes b) ≡ some n → n ≤ length b
    bytes_count b n h = counted b n (read_bytes b) refl h

length-take-le : (n : ℕ) (b : Bytes) → length (take n b) ≤ n
length-take-le zero b = omega arith
length-take-le (suc n) [] = omega arith
length-take-le (suc n) (c ∷ b) = omega (arith, length-take-le n b)

pub read_bytes_range :
    (b v : Bytes) (n : ℕ) → read_bytes b ≡ some (v, n) → (length v ≤ n) × (n ≤ length b)
read_bytes_range [] v n h = cc
read_bytes_range (c ∷ b) v n h = ground (arith, length-take-le c b)

abbrev pub wire-ranges : WireRanges wire
wire-ranges = record {
  varint_range = λ b v n h. (read_number_lem b v n h).1;
  bytes_range = read_bytes_range;
}

abbrev pub wire-laws : WireLaws wire
wire-laws = record {
  append_tag_lem = λ b num typ. refl;
  append_varint_lem = λ b v. refl;
  append_bytes_lem = λ b v. refl;
  size_tag_lem = λ num typ. refl;
  size_varint_lem = λ v. refl;
  size_bytes_lem = λ v. refl;
  tag_pos = λ num. omega arith;
  consume_varint-append = λ num rest h. read_number-lt num rest h;
  consume_bytes-append = λ v rest h. read_bytes-append v rest;
  consume_varint_tag = λ num rest h. read_tag-append num 0 rest (omega arith);
  consume_bytes_tag = λ num rest h. read_tag-append num 2 rest (omega arith);
  tag_within = tag_within;
  varint_within = number_within;
  bytes_within = bytes_within;
  value_within = value_within;
}

abbrev pub codec : Codec
codec = wire_codec wire

abbrev pub codec-laws : CodecLaws codec
codec-laws = wire_codec-laws wire wire-laws
