-- ===== src/Kvstore/Tx.antt =====
-- Which transactions are valid, and what they stage.
use mathlib.Core.Path.{subst}
use mathlib.Core.List.{append-nil, append_assoc}
use poc_cometbft.Prelude.{
  List, [], ◌∷◌, ◌++◌, ◌≡◌, ◌≢◌, ◌↔◌, refl, true, inl, inr, arith, map, if◌then◌else◌,
}
use poc_cometbft.Bytes.{Bytes}
use poc_cometbft.Bytes.Split.{Free, split_2-append, split_2-Free, split_cases}
use poc_cometbft.Kvstore.App.{is_valid_tx, parse_tx, exec_result, deliver, TxResult}

-- `key=value`, with a key that is not empty and holds no `=`.
abbrev pub Renders : Bytes → Bytes → Bytes → Type 0
Renders tx key value = (key ≢ []) × Free b'=' key × (tx ≡ key ++ (b'=' ∷ value))

pub Renders→valid :
    (tx key value : Bytes)
    → Renders tx key value
    → (is_valid_tx tx ≡ true) × (parse_tx tx ≡ (key, value))
unfolding is_valid_tx parse_tx
Renders→valid tx [] value (ne, free, e) = absurd (ne refl)
Renders→valid tx (c ∷ key) value (ne, free, e) =
    rw (e, split_2-append b'=' (c ∷ key) value free) (ground arith, refl)

valid→Renders : (tx : Bytes) → is_valid_tx tx ≡ true → Renders tx (parse_tx tx).0 (parse_tx tx).1
unfolding is_valid_tx parse_tx
valid→Renders tx h = elim (split_cases b'=' tx) [
  | inl free ↦ cc (rw (split_2-Free b'=' tx free) at h)
  | inr ([], t, free, e) ↦ cc (rw (e, split_2-append b'=' [] t free) at h)
  | inr (c ∷ a, t, free, e) ↦ rw (e, split_2-append b'=' (c ∷ a) t free) ((λ p. cc), free, refl)
]

-- A transaction is valid exactly when it reads `key=value` with a key that is not empty and holds no
-- `=`; it then stages this key and this value, of which the value may hold further `=`.
pub valid_iff-Renders :
    (tx key value : Bytes)
    → ((is_valid_tx tx ≡ true) × (parse_tx tx ≡ (key, value))) ↔ Renders tx key value
valid_iff-Renders tx key value = (
  (λ h. subst (λ kv. Renders tx kv.0 kv.1) h.1 (valid→Renders tx h.0)),
  Renders→valid tx key value,
)

-- What one transaction stages.
unfoldable pub staged_by : Bytes → List (Bytes × Bytes)
staged_by tx = if is_valid_tx tx then parse_tx tx ∷ [] else []

unfoldable pub staged_by_all : List Bytes → List (Bytes × Bytes)
unfolding staged_by
staged_by_all [] = []
staged_by_all (tx ∷ txs) = staged_by tx ++ staged_by_all txs

stage :
    (staged : List (Bytes × Bytes)) (tx : Bytes)
    → (if is_valid_tx tx then staged ++ (parse_tx tx ∷ []) else staged) ≡ staged ++ staged_by tx
unfolding staged_by
stage staged tx = ground (arith, append-nil staged)

-- The loop of `FinalizeBlock` goes over all transactions: it stages the pairs of the valid ones in
-- their order, and answers each.
pub deliver_lem :
    (txs : List Bytes) (staged : List (Bytes × Bytes)) (results : List TxResult)
    → deliver txs staged results ≡ (staged ++ staged_by_all txs, results ++ map exec_result txs)
unfolding deliver staged_by_all
deliver_lem [] staged results = rw (append-nil, append-nil) refl
deliver_lem (tx ∷ txs) staged results = rw (stage, deliver_lem txs, append_assoc, append_assoc) refl
