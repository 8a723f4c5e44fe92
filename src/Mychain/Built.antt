-- ===== src/Mychain/Built.antt =====
-- No keeper is used before it is made.
use poc_cometbft.Prelude.{
  and_left, and_right, ℕ, ◌≡◌, ◌≢◌, refl, sym, ap, ◌∙◌, List, [], ◌∷◌, ◌++◌, Bool, true, false,
  ◌==◌, ==_iff, ◌||◌, ◌&&◌, ◌⊎◌, inl, inr, Bool-cases,
}
use mathlib.Core.Path.{subst}
use poc_cometbft.Mychain.Keepers.{KeeperName, Construction, constructions}
use poc_cometbft.Mychain.Keepers

abbrev rank : KeeperName → ℕ
rank Keepers.params_keeper = 0
rank Keepers.consensus_keeper = 1
rank Keepers.capability_keeper = 2
rank Keepers.scoped_ibc_keeper = 3
rank Keepers.scoped_transfer_keeper = 4
rank Keepers.scoped_wasm_keeper = 5
rank Keepers.account_keeper = 6
rank Keepers.bank_keeper = 7
rank Keepers.staking_keeper = 8
rank Keepers.mint_keeper = 9
rank Keepers.distr_keeper = 10
rank Keepers.slashing_keeper = 11
rank Keepers.crisis_keeper = 12
rank Keepers.feegrant_keeper = 13
rank Keepers.upgrade_keeper = 14
rank Keepers.evidence_keeper = 15
rank Keepers.ibc_keeper = 16
rank Keepers.ibc_fee_keeper = 17
rank Keepers.transfer_keeper = 18
rank Keepers.gov_keeper = 19
rank Keepers.taskreg_keeper = 20
rank Keepers.wasm_keeper = 21
rank Keepers.base_app = 22
rank Keepers.module_manager = 23

-- Whether a keeper is among those given.
abbrev is_one_of : KeeperName → List KeeperName → Bool
is_one_of k [] = false
is_one_of k (j ∷ ks) = rank k == rank j || is_one_of k ks

abbrev all_of : List KeeperName → List KeeperName → Bool
all_of [] built = true
all_of (k ∷ ks) built = is_one_of k built && all_of ks built

-- Every statement is given keepers that those before it, or `built`, have made.
abbrev in_order : List KeeperName → List Construction → Bool
in_order built [] = true
in_order built (c ∷ cs) = all_of c.uses built && in_order (c.keeper ∷ built) cs

-- The keeper is made by one of the statements.
unfoldable pub Makes : KeeperName → List Construction → Type 0
Makes k [] = ⊥
Makes k (c ∷ cs) = (rank k ≡ rank c.keeper) ⊎ Makes k cs

-- The keeper is one that the statement is given.
unfoldable pub Uses : KeeperName → List KeeperName → Type 0
Uses k [] = ⊥
Uses k (j ∷ ks) = (k ≡ j) ⊎ Uses k ks

constructions-in_order : in_order [] constructions ≡ true
unfolding constructions
constructions-in_order = refl

used-is_one_of :
    (k : KeeperName) (uses built : List KeeperName)
    → Uses k uses
    → all_of uses built ≡ true
    → is_one_of k built ≡ true
unfolding Uses
used-is_one_of k [] built u h = absurd u
used-is_one_of k (j ∷ uses) built (inl e) h =
    subst (λ i. is_one_of i built ≡ true) (sym e) (and_left (is_one_of j built) _ h)
used-is_one_of k (j ∷ uses) built (inr u) h =
    used-is_one_of k uses built u (and_right (is_one_of j built) _ h)

used-made :
    (k : KeeperName) (built : List KeeperName) (before : List Construction) (c : Construction)
    (after : List Construction)
    → in_order built (before ++ (c ∷ after)) ≡ true
    → Uses k c.uses
    → (is_one_of k built ≡ true) ⊎ Makes k before
unfolding Makes
used-made k built [] c after h u =
    inl (used-is_one_of k c.uses built u (and_left (all_of c.uses built) _ h))
used-made k built (b ∷ before) c after h u =
    elim (used-made k (b.keeper ∷ built) before c after (and_right (all_of b.uses built) _ h) u) [
      | inr made ↦ inr (inr made)
      | inl now ↦ elim (Bool-cases (rank k == rank b.keeper)) [
        | inl same ↦ inr (inl ((==_iff _ _).0 same))
        | inr other ↦ inl (rw other at now)
      ]
    ]

-- Every keeper that one of the statements is given has been made by one before it.
pub built_before_use :
    (before : List Construction) (c : Construction) (after : List Construction) (k : KeeperName)
    → constructions ≡ before ++ (c ∷ after)
    → Uses k c.uses
    → Makes k before
built_before_use before c after k e u =
    elim (used-made k [] before c after (sym (ap (in_order []) e) ∙ constructions-in_order) u) [
      | inl none_built ↦ absurd (false_or_true none_built)
      | inr made ↦ made
    ]
  where
    false_or_true : false ≢ true
    false_or_true p = cc
