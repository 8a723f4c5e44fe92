-- ===== src/Api/Requests.antt =====
-- The messages to the contract.
use mathlib.Core.List.{append_cancel_left, append_cancel_right}
use poc_cometbft.Prelude.{ℕ, ◌≡◌, sym, ap, ◌∙◌}
use poc_cometbft.Bytes.{Bytes, bytes}
use poc_cometbft.Bytes.BigEndian.{IsU64}
use poc_cometbft.Bytes.Text.{decimal}
use poc_cometbft.Bytes.ParseUint.{value_of}
use poc_cometbft.Bytes.Printed.{decimal-IsUint}
use poc_cometbft.Api.Contract.{with_task_id}

decimal-injective : (a b : ℕ) → IsU64 a → IsU64 b → decimal a ≡ decimal b → a ≡ b
decimal-injective a b ha hb e =
    sym (decimal-IsUint a ha).value_is ∙ ap (value_of 0) e ∙ (decimal-IsUint b hb).value_is

-- Messages of the same name for the contract are equal only where the uint64 ids of their tasks are.
pub with_task_id-injective :
    (name : Bytes) (a b : ℕ) → IsU64 a → IsU64 b → with_task_id name a ≡ with_task_id name b → a ≡ b
unfolding with_task_id
with_task_id-injective name a b ha hb e = decimal-injective a b ha hb (
    append_cancel_right _ _ (bytes "}}") (
      append_cancel_left (bytes "\":{\"task_id\":") _ _
        (append_cancel_left name _ _ (append_cancel_left (bytes "{\"") _ _ e))))
