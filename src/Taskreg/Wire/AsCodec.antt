-- ===== src/Taskreg/Wire/AsCodec.antt =====
-- The codec of the module: `MustMarshal` and `MustUnmarshal` call the methods of types.pb.go.
use poc_cometbft.Prelude.{ap, Option, none, some, Outcome, ok, err, panic}
use poc_cometbft.Bytes.{Bytes}
use poc_cometbft.Taskreg.Types.{Task}
use poc_cometbft.Taskreg.Store.{Codec, CodecLaws}
use poc_cometbft.Taskreg.Protowire.{Protowire, WireLaws}
use poc_cometbft.Taskreg.Wire.Messages.{zero_task, marshal_task, unmarshal_task}
use poc_cometbft.Taskreg.Wire.ReadBack.{unmarshal-marshal_task}

abbrev pub to_option : Outcome Bytes Task → Option Task
to_option (ok t) = some t
to_option (err e) = none
to_option panic = none

module _ (w : Protowire) where
  abbrev pub wire_codec : Codec
  wire_codec = record {
    marshal = marshal_task w;
    unmarshal = λ bz. to_option (unmarshal_task w zero_task bz);
  }

  abbrev pub wire_codec-laws : WireLaws w → CodecLaws wire_codec
  wire_codec-laws l = record {
    unmarshal-marshal = λ t h. ap to_option (unmarshal-marshal_task w l t h);
  }
