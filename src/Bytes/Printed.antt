-- ===== src/Bytes/Printed.antt =====
-- The decimal text of a uint64, as `strconv.ParseUint` reads it.
use native.Mathlib.Nat.{pow-suc}
use poc_cometbft.Prelude.{
  ℕ, zero, suc, ◌+◌, ◌/◌, ◌%◌, ◌^◌, ◌<◌, ◌≡◌, ◌≢◌, ap, ◌∙◌, inl, inr, [], ◌∷◌, ltb, arith, All,
  Bool-cases,
}
use poc_cometbft.Bytes.{Bytes}
use poc_cometbft.Bytes.BigEndian.{IsU64}
use poc_cometbft.Bytes.Text.{digits, decimal}
use poc_cometbft.Bytes.ParseUint.{IsDigit, IsUint, is_digit, value_of}

char_code-IsDigit : (d : ℕ) → d < 10 → IsDigit (b'0' + d)
unfolding is_digit
char_code-IsDigit d h = ground arith

digits-IsUint :
    (fuel n : ℕ) (acc : Bytes)
    → n < 10 ^ fuel
    → All IsDigit acc
    → All IsDigit (digits fuel n acc) × (value_of 0 (digits fuel n acc) ≡ value_of n acc)
unfolding digits value_of
digits-IsUint zero n acc h all = (all, ap (λ m. value_of m acc) (omega (arith, h)))
digits-IsUint (suc fuel) n acc h all = elim (Bool-cases (ltb n 10)) [
  | inl last ↦
      let small : n < 10 = ground (arith, last) in
      rw last ((char_code-IsDigit n small, all), ap (λ m. value_of m acc) (omega arith))
  | inr more ↦
      let (rest, value) =
        digits-IsUint fuel (n / 10) ((b'0' + n % 10) ∷ acc) (omega (arith, pow-suc))
          (char_code-IsDigit (n % 10) (omega arith), all) in
      rw more (rest, value ∙ ap (λ m. value_of m acc) (omega arith))
]

digits-ne-nil : (fuel n d : ℕ) (acc : Bytes) → digits fuel n (d ∷ acc) ≢ []
unfolding digits
digits-ne-nil zero n d acc e = cc
digits-ne-nil (suc fuel) n d acc e = elim (Bool-cases (ltb n 10)) [
  | inl last ↦ cons_or_nil (rw last at e)
  | inr more ↦ digits-ne-nil fuel (n / 10) (b'0' + n % 10) (d ∷ acc) (rw more at e)
]
  where
    cons_or_nil : {c : ℕ} {s : Bytes} → c ∷ s ≢ []
    cons_or_nil p = cc

pub decimal-ne-nil : (n : ℕ) → decimal n ≢ []
unfolding decimal digits
decimal-ne-nil n e = elim (Bool-cases (ltb n 10)) [
  | inl last ↦ cons_or_nil (rw last at e)
  | inr more ↦ digits-ne-nil 19 (n / 10) (b'0' + n % 10) [] (rw more at e)
]
  where
    cons_or_nil : {c : ℕ} {s : Bytes} → c ∷ s ≢ []
    cons_or_nil p = cc

-- The text of a uint64 is read as that number.
pub decimal-IsUint : (n : ℕ) → IsU64 n → IsUint (decimal n) n
unfolding decimal value_of
decimal-IsUint n h =
    let (all, value) = digits-IsUint 20 n [] (omega (arith, h)) tt in
    record { written = decimal-ne-nil n; all_digits = all; value_is = value; fits = h }
