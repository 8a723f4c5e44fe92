-- ===== src/Bytes/ParseUint.antt =====
-- `strconv.ParseUint(s, 10, 64)` of Go's standard library: the value, and the error where there is one.
use native.Mathlib.Nat.{mod-eq_of_lt}
use poc_cometbft.Prelude.{
  ℕ, ◌+◌, ◌-◌, ◌*◌, ◌/◌, ◌%◌, ◌^◌, ◌≤◌, ◌<◌, ◌≡◌, ◌≢◌, ◌↔◌, refl, sym, ap, ◌∙◌, inl, inr, [], ◌∷◌,
  Bool, true, false, ◌&&◌, Option, none, some, if◌then◌else◌, ltb, leb, arith, All, Bool-cases,
}
use poc_cometbft.Bytes.{Bytes}
use poc_cometbft.Bytes.BigEndian.{IsU64}

pub data NumError : Type 0 where
  syntax range : NumError

abbrev pub max_uint64 : ℕ
max_uint64 = 2 ^ 64 - 1

unfoldable pub is_digit : ℕ → Bool
is_digit c = leb b'0' c && leb c b'9'

-- The loop over the bytes, `n` being the value of those before: a value from `cutoff` on leaves 64 bits
-- when it is multiplied, and one that wraps around when the digit is added is below what it was.
unfoldable pub parse_digits : ℕ → Bytes → ℕ × Option NumError
parse_digits n [] = (n, none)
parse_digits n (c ∷ s) =
    let next = (n * 10 + (c - b'0')) % 2 ^ 64 in
    let rest = parse_digits next s in
    if is_digit c
    then if leb (max_uint64 / 10 + 1) n
      then (max_uint64, some range)
      else if ltb next (n * 10)
      then (max_uint64, some range)
      else rest
    else (0, some syntax)

unfoldable pub parse_uint : Bytes → ℕ × Option NumError
parse_uint [] = (0, some syntax)
parse_uint (c ∷ s) = parse_digits 0 (c ∷ s)

-- The number that the digits `s` write behind `n`.
unfoldable pub value_of : ℕ → Bytes → ℕ
value_of n [] = n
value_of n (c ∷ s) = value_of (n * 10 + (c - b'0')) s

abbrev pub IsDigit : ℕ → Type 0
IsDigit c = is_digit c ≡ true

-- Digits, one at least, that write a number of 64 bits.
pub record IsUint (s : Bytes) (n : ℕ) : Type 0 where
  pub written : s ≢ []
  pub all_digits : All IsDigit s
  pub value_is : value_of 0 s ≡ n
  pub fits : IsU64 n

value_of-ge : (n : ℕ) (s : Bytes) → n ≤ value_of n s
unfolding value_of
value_of-ge n [] = omega arith
value_of-ge n (c ∷ s) = omega (arith, value_of-ge (n * 10 + (c - b'0')) s)

digit_bound : (c : ℕ) → IsDigit c → c - b'0' < 10
unfolding is_digit
digit_bound c h = ground arith

leb_not : (a b : ℕ) → b < a → leb a b ≡ false
leb_not a b h = ground arith

leb_yes : (a b : ℕ) → a ≤ b → leb a b ≡ true
leb_yes a b h = ground arith

ltb_not : (a b : ℕ) → b ≤ a → ltb a b ≡ false
ltb_not a b h = ground arith

ltb_yes : (a b : ℕ) → a < b → ltb a b ≡ true
ltb_yes a b h = ground arith

-- One step of the loop: the next value while it fits, else an error.
parse_digits_step :
    (n c : ℕ) (s : Bytes)
    → IsDigit c
    → n * 10 + (c - b'0') < 2 ^ 64
    → parse_digits n (c ∷ s) ≡ parse_digits (n * 10 + (c - b'0')) s
unfolding parse_digits
parse_digits_step n c s digit room =
    rw
      (
        digit,
        mod-eq_of_lt room,
        leb_not (max_uint64 / 10 + 1) n (omega arith),
        ltb_not (n * 10 + (c - b'0')) (n * 10) (omega arith),
      )
      refl

parse_digits_overflow :
    (n c : ℕ) (s : Bytes)
    → IsDigit c
    → n < 2 ^ 64
    → 2 ^ 64 ≤ n * 10 + (c - b'0')
    → parse_digits n (c ∷ s) ≡ (max_uint64, some range)
unfolding parse_digits
parse_digits_overflow n c s digit small big = elim (Bool-cases (leb (max_uint64 / 10 + 1) n)) [
  | inl cut ↦ rw (digit, cut) refl
  | inr below ↦
      rw
        (
          digit,
          below,
          ltb_yes ((n * 10 + (c - b'0')) % 2 ^ 64) (n * 10)
              (omega (arith, digit_bound c digit, below_cut below)),
        )
        refl
]
  where
    below_cut : leb (max_uint64 / 10 + 1) n ≡ false → n < max_uint64 / 10 + 1
    below_cut h = ground arith

parse_digits-fits :
    (n : ℕ) (s : Bytes)
    → All IsDigit s
    → value_of n s < 2 ^ 64
    → parse_digits n s ≡ (value_of n s, none)
unfolding parse_digits value_of
parse_digits-fits n [] digits_of h = refl
parse_digits-fits n (c ∷ s) digits_of h =
    parse_digits_step n c s digits_of.0 (omega (arith, value_of-ge (n * 10 + (c - b'0')) s))
    ∙ parse_digits-fits (n * 10 + (c - b'0')) s digits_of.1 h

-- What the loop returns without an error is the number that the digits write.
parse_digits-ok :
    (n : ℕ) (s : Bytes) (v : ℕ)
    → n < 2 ^ 64
    → parse_digits n s ≡ (v, none)
    → All IsDigit s × (value_of n s ≡ v) × (v < 2 ^ 64)
unfolding parse_digits value_of
parse_digits-ok n [] v small h = (tt, ap (λ r. r.0) h, omega (arith, ap (λ r. r.0) h))
parse_digits-ok n (c ∷ s) v small h = elim (Bool-cases (is_digit c)) [
  | inr other ↦ absurd (syntax_error (ap (λ r. r.1) (rw other at h)))
  | inl digit ↦ elim (Bool-cases (ltb (n * 10 + (c - b'0')) (2 ^ 64))) [
    | inl room ↦
        let fits : n * 10 + (c - b'0') < 2 ^ 64 = ground (arith, room) in
        let (all, value, bound) =
          parse_digits-ok (n * 10 + (c - b'0')) s v fits
            (sym (parse_digits_step n c s digit fits) ∙ h) in
        ((digit, all), value, bound)
    | inr no_room ↦
        let big : 2 ^ 64 ≤ n * 10 + (c - b'0') = ground (arith, no_room) in
        absurd (range_error (ap (λ r. r.1) (sym (parse_digits_overflow n c s digit small big) ∙ h)))
  ]
]
  where
    syntax_error : some syntax ≢ none
    syntax_error e = cc

    range_error : some range ≢ none
    range_error e = cc

-- Without an error, `ParseUint` returns the number that the digits write; it returns no error exactly
-- where there is one digit at least, nothing else, and the number has 64 bits.
pub parse_uint_iff : (s : Bytes) (n : ℕ) → (parse_uint s ≡ (n, none)) ↔ IsUint s n
unfolding parse_uint
parse_uint_iff [] n = (λ h. absurd (no_digits (ap (λ r. r.1) h)), λ u. absurd (u.written refl))
  where
    no_digits : some syntax ≢ none
    no_digits e = cc
parse_uint_iff (c ∷ s) n = (
  λ h.
      let (all, value, bound) = parse_digits-ok 0 (c ∷ s) n (omega arith) h in
      record { written = λ e. cc; all_digits = all; value_is = value; fits = bound },
  λ u.
      parse_digits-fits 0 (c ∷ s) u.all_digits (omega (arith, u.value_is, u.fits))
      ∙ ap (λ v. (v, none)) u.value_is,
)

parse_digits-IsU64 : (n : ℕ) (s : Bytes) → n < 2 ^ 64 → (parse_digits n s).0 < 2 ^ 64
unfolding parse_digits
parse_digits-IsU64 n [] small = small
parse_digits-IsU64 n (c ∷ s) small = elim (Bool-cases (is_digit c)) [
  | inr other ↦ rw other (omega arith)
  | inl digit ↦ elim (Bool-cases (ltb (n * 10 + (c - b'0')) (2 ^ 64))) [
    | inl room ↦
        let fits : n * 10 + (c - b'0') < 2 ^ 64 = ground (arith, room) in
        rw (parse_digits_step n c s digit fits) (parse_digits-IsU64 (n * 10 + (c - b'0')) s fits)
    | inr no_room ↦
        let big : 2 ^ 64 ≤ n * 10 + (c - b'0') = ground (arith, no_room) in
        rw (parse_digits_overflow n c s digit small big) (omega arith)
  ]
]

-- With an error or without, the value has 64 bits.
pub parse_uint-IsU64 : (s : Bytes) → IsU64 (parse_uint s).0
unfolding parse_uint
parse_uint-IsU64 [] = omega arith
parse_uint-IsU64 (c ∷ s) = parse_digits-IsU64 0 (c ∷ s) (omega arith)
