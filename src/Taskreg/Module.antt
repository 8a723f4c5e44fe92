-- ===== src/Taskreg/Module.antt =====
-- mychain/x/taskreg/module.go: the module's genesis, as the chain passes it in JSON.
use poc_cometbft.Prelude.{must, ℕ, ◌++◌, Outcome, ok, err, panic, ◌>>=◌}
use poc_cometbft.Bytes.{Bytes, bytes}
use poc_cometbft.Taskreg.Types.{GenesisState, Error, module_name}
use poc_cometbft.Taskreg.Store.{KvStoreService, Codec}
use poc_cometbft.Taskreg.Genesis
use poc_cometbft.Taskreg.Genesis.{validate}

-- `UnmarshalJSON` with the text of its error, and `MarshalJSON`, of the SDK's codec; `MustMarshalJSON`
-- and `MustUnmarshalJSON` panic where these return an error.
pub record JsonCodec : Type 0 where
  pub marshal_json : GenesisState → Outcome Bytes Bytes
  pub unmarshal_json : Bytes → Outcome Bytes GenesisState

-- What `ValidateGenesis` returns for an error: the codec's, with the text in front, or the genesis's.
pub data GenesisError : Type 0 where
  malformed : Bytes → GenesisError
  refused : Error → GenesisError

unfoldable pub name : Bytes
name = module_name

unfoldable pub consensus_version : ℕ
consensus_version = 1

module _ (j : JsonCodec) where
  unfoldable pub default_genesis : Outcome GenesisError Bytes
  default_genesis = must (j.marshal_json Genesis.default_genesis)

  unfoldable pub refusal : Outcome Error (Unit {0}) → Outcome GenesisError (Unit {0})
  refusal (ok u) = ok u
  refusal (err e) = err (refused e)
  refusal panic = panic

  unfoldable pub validate_read : Outcome Bytes GenesisState → Outcome GenesisError (Unit {0})
  unfolding refusal
  validate_read (ok gs) = refusal (validate gs)
  validate_read (err e) =
      err (
        malformed
          (bytes "failed to unmarshal " ++ (module_name ++ (bytes " genesis state: " ++ e))))
  validate_read panic = panic

  unfoldable pub validate_genesis : Bytes → Outcome GenesisError (Unit {0})
  unfolding validate_read
  validate_genesis bz = validate_read (j.unmarshal_json bz)

  module _ (s : KvStoreService) (cdc : Codec) where
    unfoldable pub init_genesis : s.Store → Bytes → Outcome Error s.Store
    init_genesis st bz = do gs ← must (j.unmarshal_json bz); ok (Genesis.init_genesis s cdc st gs)

    unfoldable pub export_genesis : s.Store → Outcome Error Bytes
    export_genesis st = do gs ← Genesis.export_genesis s cdc st; must (j.marshal_json gs)
