-- ===== src/Taskreg/Restored.antt =====
-- The module's genesis in JSON goes around unchanged.
use poc_cometbft.Prelude.{◌≡◌, ◌↔◌, refl, Outcome, ok, err, panic, ◌>>=◌, All}
use poc_cometbft.Bytes.{Bytes}
use poc_cometbft.Bytes.BigEndian.{IsU64}
use poc_cometbft.Taskreg.Types.{IsTask, GenesisState, Error}
use poc_cometbft.Taskreg.Store.{KvStoreService, StoreLaws, Codec, CodecLaws}
use poc_cometbft.Taskreg.Listing.{Ascending, IsTaskStore}
use poc_cometbft.Taskreg.Genesis.{validate}
use poc_cometbft.Taskreg.Import.{Distinct, validate_iff}
use poc_cometbft.Taskreg.RoundTrip.{HasNoTask, export-init_genesis}
use poc_cometbft.Taskreg.Module
use poc_cometbft.Taskreg.Module.{JsonCodec, refusal, validate_read}

module _ (j : JsonCodec) where
  accepted : (o : Outcome Error (Unit {0})) → refusal j o ≡ ok tt → o ≡ ok tt
  unfolding refusal
  accepted (ok u) h = refl
  accepted (err e) h = cc
  accepted panic h = cc

  read_valid :
      (o : Outcome Bytes GenesisState)
      → validate_read j o ≡ ok tt
      → (gs : GenesisState) × (o ≡ ok gs) × Distinct gs.tasks
  unfolding validate_read
  read_valid (ok gs) h = (gs, refl, (validate_iff gs).0 (accepted (validate gs) h))
  read_valid (err e) h = cc
  read_valid panic h = cc

  validate_read-Distinct : (gs : GenesisState) → Distinct gs.tasks → validate_read j (ok gs) ≡ ok tt
  unfolding validate_read refusal
  validate_read-Distinct gs d = rw ((validate_iff gs).1 d) refl

  -- `ValidateGenesis` accepts exactly the JSON of a genesis no two tasks of which have one id.
  pub validate_genesis_iff :
      (bz : Bytes)
      → (Module.validate_genesis j bz ≡ ok tt)
        ↔ ((gs : GenesisState) × (j.unmarshal_json bz ≡ ok gs) × Distinct gs.tasks)
  unfolding Module.validate_genesis
  validate_genesis_iff bz =
      (read_valid (j.unmarshal_json bz), λ (gs, e, d). rw e (validate_read-Distinct gs d))

  module _ (s : KvStoreService) (sl : StoreLaws s) (cdc : Codec) (cl : CodecLaws cdc) where
    -- A store where the keeper finds no task, and every pair under the prefix of the tasks is one under
    -- its own key: the module's `InitGenesis` of the JSON of a genesis succeeds, and its `ExportGenesis`
    -- then returns this JSON, if the codec reads it back, and the genesis has its tasks in the order of
    -- their ids, without repetition, and all fields in the ranges of their types.
    pub export-init_genesis_json :
        (st : s.Store) (gs : GenesisState) (bz : Bytes)
        → j.marshal_json gs ≡ ok bz
        → j.unmarshal_json bz ≡ ok gs
        → IsTaskStore s sl cdc cl st
        → HasNoTask s sl cdc cl st
        → All IsTask gs.tasks
        → Ascending gs.tasks
        → IsU64 gs.next_task_id
        → (Module.init_genesis j s cdc st bz >>= λ st'. Module.export_genesis j s cdc st') ≡ ok bz
    unfolding Module.init_genesis Module.export_genesis
    export-init_genesis_json st gs bz writes reads holds empty h a hn =
        rw (reads, export-init_genesis s sl cdc cl st gs holds empty h a hn, writes) refl
