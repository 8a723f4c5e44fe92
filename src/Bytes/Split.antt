-- ===== src/Bytes/Split.antt =====
-- `bytes.SplitN(s, []byte{sep}, 2)` of Go's standard library.
use poc_cometbft.Prelude.{
  ℕ, List, [], ◌∷◌, ◌++◌, ◌==◌, if◌then◌else◌, ◌≡◌, ◌≢◌, ◌⊎◌, inl, inr, refl, ap, All, arith,
  Bool-cases, ==_iff,
}
use poc_cometbft.Bytes.{Bytes}

-- One more byte in front of the first part.
abbrev pub extend : ℕ → List Bytes → List Bytes
extend c [] = []
extend c (first ∷ rest) = (c ∷ first) ∷ rest

-- The parts before and after the first `sep`, or the whole where there is none.
unfoldable pub split_2 : ℕ → Bytes → List Bytes
split_2 sep [] = [] ∷ []
split_2 sep (c ∷ s) = if c == sep then [] ∷ s ∷ [] else extend c (split_2 sep s)

-- `sep` does not occur.
abbrev pub Free : ℕ → Bytes → Type 0
Free sep = All (λ c. c ≢ sep)

-- The text in front of the first `sep` is the first part.
pub split_2-append :
    (sep : ℕ) (s t : Bytes) → Free sep s → split_2 sep (s ++ (sep ∷ t)) ≡ s ∷ t ∷ []
unfolding split_2
split_2-append sep [] t h = ground arith
split_2-append sep (c ∷ s) t h = ground (arith, split_2-append sep s t)

pub split_2-Free : (sep : ℕ) (s : Bytes) → Free sep s → split_2 sep s ≡ s ∷ []
unfolding split_2
split_2-Free sep [] h = refl
split_2-Free sep (c ∷ s) h = ground (arith, split_2-Free sep s)

-- A text has `sep`, and is cut at the first, or has none.
pub split_cases :
    (sep : ℕ) (s : Bytes)
    → Free sep s ⊎ ((a : Bytes) × (t : Bytes) × Free sep a × (s ≡ a ++ (sep ∷ t)))
split_cases sep [] = inl tt
split_cases sep (c ∷ s) = elim (Bool-cases (c == sep)) [
  | inl same ↦ inr ([], s, tt, ground (arith, ==_iff c sep))
  | inr other ↦ elim (split_cases sep s) [
    | inl free ↦ inl (ground arith, free)
    | inr (a, t, free, e) ↦ inr (c ∷ a, t, (ground arith, free), ap (λ r. c ∷ r) e)
  ]
]
