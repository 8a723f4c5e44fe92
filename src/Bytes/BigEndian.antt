-- ===== src/Bytes/BigEndian.antt =====
-- `binary.BigEndian.PutUint64` and `binary.BigEndian.Uint64` of Go's standard library.
use native.Mathlib.Nat.{
  div-div-eq-div-mul, mod-add-div, mod-lt, div-add-mod, mod-eq_of_lt, pow-suc, mul-le-mul_right,
}
use poc_cometbft.Prelude.{
  ℕ, zero, suc, ◌+◌, ◌*◌, ◌/◌, ◌%◌, ◌^◌, ◌<◌, ◌≡◌, refl, ap, ◌∙◌, [], ◌∷◌, arith, compare, Ordering,
  Outcome, ok, panic,
}
use poc_cometbft.Bytes.{Bytes}
use poc_cometbft.Bytes.Order.{compare_bytes}

abbrev pub IsU64 : ℕ → Type 0
IsU64 v = v < 2 ^ 64

-- The lowest `n` bytes of `v`, highest first: `byte(v >> (8*(n-1)))`, and so on.
unfoldable pub big_endian : ℕ → ℕ → Bytes
big_endian zero v = []
big_endian (suc n) v = (v / 256 ^ n % 256) ∷ big_endian n v

-- The eight bytes that `PutUint64` writes.
unfoldable pub put_uint64 : ℕ → Bytes
unfolding big_endian
put_uint64 v = big_endian 8 v

unfoldable pub value : ℕ → Bytes → ℕ
value acc [] = acc
value acc (b ∷ bs) = value (acc * 256 + b) bs

-- `Uint64` reads the first eight bytes, and panics where there are fewer.
unfoldable pub uint64 {ℓ} : {E : Type ℓ} → Bytes → Outcome E ℕ
unfolding value
uint64 (a ∷ b ∷ c ∷ d ∷ e ∷ f ∷ g ∷ h ∷ rest) = ok (value 0 (a ∷ b ∷ c ∷ d ∷ e ∷ f ∷ g ∷ h ∷ []))
uint64 _ = panic

-- The byte above `256 ^ n`, and what is below it.
mod_step : (n v : ℕ) → v % 256 ^ suc n ≡ (v / 256 ^ n % 256) * 256 ^ n + v % 256 ^ n
mod_step n v = rw pow-suc (split (256 ^ n))
  where
    split : (p : ℕ) → v % (p * 256) ≡ (v / p % 256) * p + v % p
    split p = omega (
      arith,
      mod-add-div v (p * 256),
      ap (λ (t : ℕ). p * 256 * t) (div-div-eq-div-mul v p 256),
      div-add-mod v p,
      ap (λ (t : ℕ). t * p) (div-add-mod (v / p) 256),
    )

value-big_endian : (n acc v : ℕ) → value acc (big_endian n v) ≡ acc * 256 ^ n + v % 256 ^ n
unfolding value big_endian
value-big_endian zero acc v = omega arith
value-big_endian (suc n) acc v =
    value-big_endian n (acc * 256 + v / 256 ^ n % 256) v ∙ rw (mod_step, pow-suc) (omega arith)

-- Reading back the eight bytes of a uint64 gives that number.
pub uint64-put_uint64 {ℓ} : {E : Type ℓ} (v : ℕ) → IsU64 v → uint64 {E = E} (put_uint64 v) ≡ ok v
unfolding uint64 put_uint64
uint64-put_uint64 v h = ap ok (value-big_endian 8 0 v ∙ omega arith)

pow_pos : (n : ℕ) → 0 < 256 ^ n
pow_pos zero = omega arith
pow_pos (suc n) = rw pow-suc (omega (arith, pow_pos n))

-- Numbers written high digit first compare as their digits do.
digits_compare :
    (p a b c d : ℕ)
    → b < p
    → d < p
    → compare (a * p + b) (c * p + d) ≡ elim (compare a c) [
      | Ordering.lt ↦ Ordering.lt
      | Ordering.eq ↦ compare b d
      | Ordering.gt ↦ Ordering.gt
    ]
digits_compare p a b c d hb hd =
    ground (arith, mul-le-mul_right {m = a + 1} {n = c} p, mul-le-mul_right {m = c + 1} {n = a} p)

-- The byte order of the encodings is the order of the numbers.
compare-big_endian :
    (n a b : ℕ)
    → compare_bytes (big_endian n a) (big_endian n b) ≡ compare (a % 256 ^ n) (b % 256 ^ n)
unfolding compare_bytes big_endian
compare-big_endian zero a b = ground arith
compare-big_endian (suc n) a b =
    rw
      (
        mod_step n a,
        mod_step n b,
        digits_compare _ _ _ _ _ (mod-lt a (pow_pos n)) (mod-lt b (pow_pos n)),
      )
      (ground (arith, compare-big_endian n a b))

pub compare-put_uint64 :
    (a b : ℕ) → IsU64 a → IsU64 b → compare_bytes (put_uint64 a) (put_uint64 b) ≡ compare a b
unfolding put_uint64
compare-put_uint64 a b ha hb =
    rw (compare-big_endian 8, mod-eq_of_lt {m = 256 ^ 8} ha, mod-eq_of_lt {m = 256 ^ 8} hb) refl
