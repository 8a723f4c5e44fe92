-- ===== src/Api/OverHttp.antt =====
-- A task that is created and read by requests to the backend, on a chain that runs the registry.
use poc_cometbft.Bytes.{Bytes}
use poc_cometbft.Taskreg.Store.{KvStoreService, StoreLaws, Codec, CodecLaws}
use poc_cometbft.Taskreg.Registry.{Registry}
use poc_cometbft.Api.Contract.{Client}
use poc_cometbft.Api.KvClient.{Rpc}
use poc_cometbft.Api.RegistryChain.{
  Checks, RegistryNode, TxCodec, TxLaws, registry_chain, next_block,
}
use poc_cometbft.Api.Server.{Router, RouterLaws, Decoders, Sent, serve_http}
use poc_cometbft.Api.Reference.{ApiRequest, method_of, path_of}

module _ (s : KvStoreService) (sl : StoreLaws s) (cdc : Codec) (cl : CodecLaws cdc) (x : TxCodec)
    (xl : TxLaws x) (k : Checks) (signer : Bytes) (kv : Rpc) (hex : Bytes → Bytes) (client : Client)
    (decode : Decoders) (find : Router) (laws : RouterLaws find) where
  abbrev pub Backend : Type 0
  Backend = RegistryNode s k × kv.Node

  -- A request to the backend, whose chain runs the registry.
  abbrev pub http : ApiRequest → Bytes → Backend → Sent (Unit {0}) × Backend
  http q body =
      serve_http (registry_chain s cdc x k signer) kv hex client decode find
        (record { method = method_of q; path = path_of q; body = body })

  -- The backend behind a block of its chain.
  abbrev pub behind_block : Backend → Backend
  behind_block backend = (next_block s cdc x k signer backend.0, backend.1)
