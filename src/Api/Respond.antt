-- ===== src/Api/Respond.antt =====
-- api-backend/handlers/util.go.
use poc_cometbft.Prelude.{ℕ, Bool, false, Option, none, some, [], ltb}
use poc_cometbft.Bytes.{Bytes}

-- The status, and the fields of `APIResponse`; `D` is what the data can be.
pub record Response (D : Type 0) : Type 0 where
  pub status : ℕ
  pub success : Bool
  pub data_of : Option D
  pub error : Bytes

module _ {D : Type 0} where
  unfoldable pub respond_json : ℕ → D → Response D
  respond_json status d = record {
    status = status;
    success = ltb status 400;
    data_of = some d;
    error = [];
  }

  unfoldable pub respond_error : ℕ → Bytes → Response D
  respond_error status msg = record {
    status = status;
    success = false;
    data_of = none;
    error = msg;
  }
