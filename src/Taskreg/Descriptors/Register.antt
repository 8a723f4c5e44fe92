-- ===== src/Taskreg/Descriptors/Register.antt =====
-- mychain/x/taskreg/types/proto_descriptor.go: `registerProtoFile` and `init`.
use poc_cometbft.Prelude.{◌++◌, Outcome, ok, err, panic, ◌>>=◌}
use poc_cometbft.Bytes.{Bytes, bytes}
use poc_cometbft.Taskreg.Protowire.{Protowire}
use poc_cometbft.Taskreg.Descriptors.{FileDescriptor}
use poc_cometbft.Taskreg.Descriptors.Files.{tx_file, types_file, query_file, genesis_file}

-- `proto.Marshal` of a descriptor and the gzip writer, which may fail, and gogoproto's `RegisterFile`.
pub record ProtoRegistry : Type 1 where
  pub Files : Type 0
  pub marshal : FileDescriptor → Outcome Bytes Bytes
  pub gzip : Bytes → Outcome Bytes Bytes
  pub register_file : Files → Bytes → Bytes → Files

module _ (p : ProtoRegistry) where
  -- A panic is an error here, with its text.
  unfoldable pub register_proto_file : p.Files → FileDescriptor → Outcome Bytes (Bytes × p.Files)
  register_proto_file files fd = do
    b ← panics (bytes "failed to marshal file descriptor: ") (p.marshal fd)
    gzipped ← panics (bytes "failed to gzip file descriptor: ") (p.gzip b)
    ok (gzipped, p.register_file files fd.name gzipped)
    where
      panics : Bytes → Outcome Bytes Bytes → Outcome Bytes Bytes
      panics text (ok b) = ok b
      panics text (err e) = err (text ++ e)
      panics text panic = panic

  -- `init`: the bytes that `Descriptor()` methods return, for tx, types, query and genesis.
  unfoldable pub init :
      Protowire → p.Files → Outcome Bytes ((Bytes × Bytes × Bytes × Bytes) × p.Files)
  init w files = do
    tx ← register_proto_file files (tx_file w)
    types ← register_proto_file tx.1 types_file
    query ← register_proto_file types.1 query_file
    genesis ← register_proto_file query.1 genesis_file
    ok ((tx.0, types.0, query.0, genesis.0), genesis.1)
