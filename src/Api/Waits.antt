-- ===== src/Api/Waits.antt =====
-- What the start of the backend waits for, and the contract that it finds.
use mathlib.Core.Path.{subst}
use poc_cometbft.Prelude.{
  ℕ, zero, suc, ◌+◌, ◌<◌, ◌≤◌, ◌≡◌, ◌≢◌, inl, inr, refl, sym, ◌∙◌, true, false, Option, some, ltb,
  arith, Bool-cases,
}
use poc_cometbft.Api.Start.{is_ready, wait_loop, wait_for_ready}

-- The try `j` is the first one, from `i` on, that finds the service ready.
pub record FirstReady (answer_at : ℕ → Option ℕ) (i j : ℕ) : Type 0 where
  pub from : i ≤ j
  pub ready : is_ready (answer_at j) ≡ true
  pub earlier : (k : ℕ) → i ≤ k → k < j → is_ready (answer_at k) ≡ false

module _ (answer_at : ℕ → Option ℕ) where
  wait_loop-ready :
      (tries i k : ℕ)
      → i ≤ k
      → k < i + tries
      → is_ready (answer_at k) ≡ true
      → (j : ℕ) × (j ≤ k) × (wait_loop answer_at tries i ≡ some j) × FirstReady answer_at i j
  unfolding wait_loop
  wait_loop-ready zero i k from before h = absurd (omega (arith, from, before))
  wait_loop-ready (suc tries) i k from before h = elim (Bool-cases (is_ready (answer_at i))) [
    | inl now ↦ (
      i,
      from,
      rw now refl,
      record {
        from = omega arith;
        ready = now;
        earlier = λ m lo hi. absurd (omega (arith, lo, hi));
      },
    )
    | inr not_now ↦
        let (j, within, found, first) =
          wait_loop-ready tries (suc i) k (later not_now) (omega (arith, before)) h in
        (
          j,
          within,
          rw not_now found,
          record {
            from = omega (arith, first.from);
            ready = first.ready;
            earlier = λ m lo hi. elim (Bool-cases (ltb i m)) [
              | inl above ↦ first.earlier m (ground (arith, above)) hi
              | inr same ↦ subst (λ n. is_ready (answer_at n) ≡ false) (at_start m lo same) not_now
            ];
          },
        )
  ]
    where
      at_start : (m : ℕ) → i ≤ m → ltb i m ≡ false → i ≡ m
      at_start m lo same = ground arith

      later : is_ready (answer_at i) ≡ false → suc i ≤ k
      later not_now = elim (Bool-cases (ltb i k)) [
        | inl above ↦ ground (arith, above)
        | inr same ↦ absurd (
            true_or_false
              (sym h ∙ subst (λ n. is_ready (answer_at n) ≡ false) (at_start k from same) not_now))
      ]
        where
          true_or_false : true ≢ false
          true_or_false e = cc

  -- Where the service answers one of the tries with status 200, `waitForReady` ends with the first such
  -- try, and warns of nothing.
  pub wait_for_ready_lem :
      (max_retries k : ℕ)
      → k < max_retries
      → is_ready (answer_at k) ≡ true
      → (j : ℕ) × (j ≤ k)
        × (wait_for_ready answer_at max_retries ≡ some j)
        × FirstReady answer_at 0 j
  unfolding wait_for_ready
  wait_for_ready_lem max_retries k before h =
      wait_loop-ready max_retries 0 k (omega arith) (omega (arith, before)) h
