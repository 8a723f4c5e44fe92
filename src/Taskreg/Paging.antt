-- ===== src/Taskreg/Paging.antt =====
-- The pages of `ListTasks`, and where its slice expression panics.
use poc_cometbft.Prelude.{
  ℕ, zero, suc, ◌+◌, ◌-◌, ◌^◌, ◌<◌, ◌≤◌, ◌≡◌, ◌≢◌, ◌⊎◌, refl, sym, ap, ◌∙◌, List, [], ◌∷◌, Bool,
  ◌&&◌, ◌||◌, none, some, ok, panic, if◌then◌else◌, ◌==◌, ltb, arith, inl, inr, Bool-cases, length,
  take, drop, take-all,
}
use poc_cometbft.Bytes.BigEndian.{IsU64}
use poc_cometbft.Taskreg.Types.{Task}
use poc_cometbft.Taskreg.Store.{KvStoreService, Codec}
use poc_cometbft.Taskreg.Keeper
use poc_cometbft.Taskreg.Query
use poc_cometbft.Taskreg.Query.{PageRequest, page_start, page_end, page_bounds, slice}

-- The page that a request asks for: `limit` elements behind the first `offset`; 0 is no limit.
unfoldable pub page {ℓ} : {A : Type ℓ} → List A → PageRequest → List A
page ts p = let rest = drop p.offset ts in if p.limit == 0 then rest else take p.limit rest

abbrev pub lesser : ℕ → ℕ → ℕ
lesser a b = if ltb b a then b else a

-- Neither `int(offset)` nor the end of the page passes the ints.
unfoldable pub fits : PageRequest → ℕ → Bool
fits p len = ltb p.offset (2 ^ 63) && (p.limit == 0 || ltb (lesser p.offset len + p.limit) (2 ^ 63))

module _ {ℓ} {A : Type ℓ} where
  length-drop : (n : ℕ) (xs : List A) → length (drop n xs) ≡ length xs - n
  length-drop zero xs = omega arith
  length-drop (suc n) [] = omega arith
  length-drop (suc n) (x ∷ xs) = omega (arith, length-drop n xs)

  drop-all : (n : ℕ) (xs : List A) → length xs ≤ n → drop n xs ≡ []
  drop-all zero [] h = refl
  drop-all zero (x ∷ xs) h = absurd (omega arith)
  drop-all (suc n) [] h = refl
  drop-all (suc n) (x ∷ xs) h = drop-all n xs (omega arith)

  drop-lesser : (n : ℕ) (xs : List A) → drop (lesser n (length xs)) xs ≡ drop n xs
  drop-lesser n xs = elim (Bool-cases (ltb (length xs) n)) [
    | inl past ↦
        rw past (drop-all (length xs) xs (omega arith) ∙ sym (drop-all n xs (ground arith)))
    | inr within ↦ rw within refl
  ]

  -- Taking as many as there are at most.
  take-enough : (n k : ℕ) (xs : List A) → length xs ≤ n → length xs ≤ k → take n xs ≡ take k xs
  take-enough n k xs h g = take-all n xs h ∙ sym (take-all k xs g)

start_lem :
    (offset len : ℕ) → offset < 2 ^ 63 → len < 2 ^ 63 → page_start offset len ≡ lesser offset len
unfolding page_start
start_lem offset len h g = ground arith

end_lem :
    (start limit len : ℕ)
    → start ≤ len
    → len < 2 ^ 63
    → limit ≢ 0
    → start + limit < 2 ^ 63
    → page_end start limit len ≡ lesser (start + limit) len
unfolding page_end
end_lem start limit len a b c d = ground arith

module _ {A : Type 0} {E : Type 0} where
  slice_ok :
      (ts : List A) (start end' : ℕ)
      → start ≤ end'
      → end' ≤ length ts
      → length ts < 2 ^ 63
      → slice {E = E} ts start end' ≡ ok (take (end' - start) (drop start ts))
  unfolding slice
  slice_ok ts start end' a b c = ground arith

  slice_negative :
      (ts : List A) (start end' : ℕ) → 2 ^ 63 ≤ start → slice {E = E} ts start end' ≡ panic
  unfolding slice
  slice_negative ts start end' h = ground arith

  slice_bad_end :
      (ts : List A) (start end' : ℕ)
      → (2 ^ 63 ≤ end') ⊎ (end' < start)
      → slice {E = E} ts start end' ≡ panic
  unfolding slice
  slice_bad_end ts start end' h = ground arith

end_unlimited : (start limit len : ℕ) → limit ≡ 0 → page_end start limit len ≡ len
unfolding page_end
end_unlimited start limit len h = ground arith

end_bad :
    (start limit len : ℕ)
    → start ≤ len
    → len < 2 ^ 63
    → IsU64 limit
    → 2 ^ 63 ≤ start + limit
    → (2 ^ 63 ≤ page_end start limit len) ⊎ (page_end start limit len < start)
unfolding page_end
end_bad start limit len a b c d = ground arith

start_negative :
    (offset len : ℕ)
    → 2 ^ 63 ≤ offset
    → IsU64 offset
    → len < 2 ^ 63
    → page_start offset len ≡ offset
unfolding page_start
start_negative offset len h u g = ground arith

lesser-le : (a b : ℕ) → (lesser a b ≤ b) × (lesser a b ≤ a)
lesser-le a b = ground arith

module _ {A : Type 0} {E : Type 0} where
  unlimited :
      (ts : List A) (start : ℕ)
      → start ≤ length ts
      → length ts < 2 ^ 63
      → slice {E = E} ts start (length ts) ≡ ok (drop start ts)
  unlimited ts start a b =
      slice_ok ts start (length ts) a (omega arith) b
      ∙ ap ok (take-all _ (drop start ts) (omega (arith, length-drop start ts)))

  limited :
      (ts : List A) (start limit : ℕ)
      → start ≤ length ts
      → length ts < 2 ^ 63
      → slice {E = E} ts start (lesser (start + limit) (length ts))
        ≡ ok (take limit (drop start ts))
  limited ts start limit a b =
      slice_ok ts start (lesser (start + limit) (length ts)) (ground arith)
        (lesser-le (start + limit) (length ts)).0 b
      ∙ ap ok (elim (Bool-cases (ltb (length ts) (start + limit))) [
        | inl past ↦ rw past (
            take-enough _ limit (drop start ts) (omega (arith, length-drop start ts))
              (ground (arith, length-drop start ts)))
        | inr within ↦ rw within (ap (λ (n : ℕ). take n (drop start ts)) (omega arith))
      ])

  -- The slice from a start within the list.
  slice_from :
      (ts : List A) (start limit : ℕ)
      → start ≤ length ts
      → length ts < 2 ^ 63
      → IsU64 limit
      → slice {E = E} ts start (page_end start limit (length ts)) ≡ (
          if limit == 0 || ltb (start + limit) (2 ^ 63)
          then ok (if limit == 0 then drop start ts else take limit (drop start ts))
          else panic)
  slice_from ts start limit h hn hl = elim (Bool-cases (limit == 0)) [
    | inl unset ↦
        rw (unset, end_unlimited start limit (length ts) (ground arith)) (unlimited ts start h hn)
    | inr set ↦ elim (Bool-cases (ltb (start + limit) (2 ^ 63))) [
      | inl room ↦
          rw (set, room, end_lem start limit (length ts) h hn (ground arith) (ground arith))
            (limited ts start limit h hn)
      | inr over ↦
          rw (set, over)
            (slice_bad_end ts start _ (end_bad start limit (length ts) h hn hl (ground arith)))
    ]
  ]

  -- The slice of a request is the page that it asks for, or the expression panics.
  pub slice-page :
      (ts : List A) (p : PageRequest)
      → IsU64 p.offset
      → IsU64 p.limit
      → length ts < 2 ^ 63
      → slice {E = E} ts (page_bounds (some p) (length ts)).0 (page_bounds (some p) (length ts)).1
        ≡ (if fits p (length ts) then ok (page ts p) else panic)
  unfolding page_bounds
  slice-page ts p ho hl hn = elim (Bool-cases (ltb p.offset (2 ^ 63))) [
    | inr huge ↦
        rw (start_negative p.offset (length ts) (ground arith) ho hn)
          (slice_negative ts p.offset _ (ground arith) ∙ unfold fits in rw huge refl)
    | inl small ↦ rw (start_lem p.offset (length ts) (ground arith) hn) (
        slice_from ts (lesser p.offset (length ts)) p.limit (lesser-le p.offset (length ts)).0 hn hl
        ∙ unfold fits page in rw (small, drop-lesser p.offset ts) refl)
  ]

no_page :
    {A E : Type 0} (ts : List A)
    → length ts < 2 ^ 63
    → slice {E = E} ts (page_bounds none (length ts)).0 (page_bounds none (length ts)).1 ≡ ok ts
unfolding page_bounds
no_page ts h = unlimited ts 0 (omega arith) h

module _ (s : KvStoreService) (cdc : Codec) where
  -- Where `IterateTasks` visits less than 2 ^ 63 tasks, a request without a page is answered with all of
  -- them; one with a page of uint64 fields, with the elements that it asks for, and the total. Where the offset, or the end of the page,
  -- passes the largest int, the slice expression panics; there is no other panic.
  pub list_tasks_lem :
      (st : s.Store) (ts : List Task) (p : PageRequest)
      → Keeper.iterate_tasks s cdc (Keeper.collect s cdc) st [] ≡ ok ts
      → length ts < 2 ^ 63
      → IsU64 p.offset
      → IsU64 p.limit
      → (Query.list_tasks s cdc st (some (record { pagination = none }))
          ≡ ok (record { tasks = ts; total = length ts }))
        × (Query.list_tasks s cdc st (some (record { pagination = some p })) ≡ (
            if fits p (length ts)
            then ok (record { tasks = page ts p; total = length ts })
            else panic))
  unfolding Query.list_tasks
  list_tasks_lem st ts p e h ho hl = (
    rw (e, no_page ts h) refl,
    rw (e, slice-page ts p ho hl h)
        (elim (Bool-cases (fits p (length ts))) [
          | inl room ↦ rw room refl
          | inr over ↦ rw over refl
        ]),
  )
