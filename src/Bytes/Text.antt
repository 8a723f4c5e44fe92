-- ===== src/Bytes/Text.antt =====
-- `fmt.Sprintf("%d", n)` for a uint64.
use poc_cometbft.Prelude.{ℕ, zero, suc, ◌+◌, ◌/◌, ◌%◌, [], ◌∷◌, ltb, if◌then◌else◌}
use poc_cometbft.Bytes.{Bytes}

-- The digits of `n` in front of `acc`; a uint64 has twenty at most.
unfoldable pub digits : ℕ → ℕ → Bytes → Bytes
digits zero n acc = acc
digits (suc fuel) n acc =
    let more = digits fuel (n / 10) ((b'0' + n % 10) ∷ acc) in
    if ltb n 10 then (b'0' + n) ∷ acc else more

unfoldable pub decimal : ℕ → Bytes
unfolding digits
decimal n = digits 20 n []
