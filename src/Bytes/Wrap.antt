-- ===== src/Bytes/Wrap.antt =====
-- `fmt.Errorf(text + ": %w", err)` where a call failed; an error is its text.
use poc_cometbft.Prelude.{◌≡◌, ◌++◌, Outcome, ok, err, panic}
use poc_cometbft.Bytes.{Bytes}

abbrev pub wrap : {A : Type 0} → Bytes → Outcome Bytes A → Outcome Bytes A
wrap text (ok a) = ok a
wrap text (err e) = err (text ++ e)
wrap text panic = panic

pub wrap_ok :
    {A : Type 0} (text : Bytes) (o : Outcome Bytes A) (a : A) → wrap text o ≡ ok a → o ≡ ok a
wrap_ok text (ok b) a h = h
wrap_ok text (err e) a h = cc
wrap_ok text panic a h = cc
