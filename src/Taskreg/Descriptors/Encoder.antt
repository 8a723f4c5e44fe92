-- ===== src/Taskreg/Descriptors/Encoder.antt =====
-- What the descriptors say of the bytes of a message: the wire format of proto3, read off a descriptor.
use poc_cometbft.Prelude.{ℕ, ◌==◌, List, [], ◌∷◌, Option, none, some, if◌then◌else◌}
use poc_cometbft.Bytes.{Bytes, bytes_eq}
use poc_cometbft.Taskreg.Protowire.{Protowire}
use poc_cometbft.Taskreg.Descriptors.{
  FieldType, Label, string_type, uint64_type, enum_type, message_type, label_optional,
  label_repeated, FieldDescriptor, MessageDescriptor,
}

-- What a field holds: a text, a number, or messages, of which an optional field has one at most.
pub data Value : Type 0 where
  text : Bytes → Value
  number : ℕ → Value
  submessages : List Bytes → Value

module _ (w : Protowire) where
  -- Numbers are varints; texts and messages stand behind their length.
  abbrev pub wire_type : FieldType → ℕ
  wire_type string_type = w.bytes_type
  wire_type uint64_type = w.varint_type
  wire_type enum_type = w.varint_type
  wire_type message_type = w.bytes_type

  -- A record of the wire format is the tag of the field's number and wire type, and the value.
  abbrev pub tagged : FieldType → ℕ → Bytes → Bytes
  tagged type num b = w.append_tag b num (wire_type type)

  abbrev pub with_submessages : ℕ → Bytes → List Bytes → Bytes
  with_submessages num b [] = b
  with_submessages num b (bz ∷ rest) =
      with_submessages num (w.append_bytes (tagged message_type num b) bz) rest

  -- A scalar of proto3 that is zero or empty is left out, as is a message that is not there; none where
  -- the value is not one of the field's type, or not one of its label.
  unfoldable pub encode_value : FieldType → Label → ℕ → Bytes → Value → Option Bytes
  encode_value string_type label_optional num b (text s) =
      some (if bytes_eq s [] then b else w.append_bytes (tagged string_type num b) s)
  encode_value uint64_type label_optional num b (number v) =
      some (if v == 0 then b else w.append_varint (tagged uint64_type num b) v)
  encode_value enum_type label_optional num b (number v) =
      some (if v == 0 then b else w.append_varint (tagged enum_type num b) v)
  encode_value message_type label_optional num b (submessages []) = some b
  encode_value message_type label_optional num b (submessages (bz ∷ [])) =
      some (w.append_bytes (tagged message_type num b) bz)
  encode_value message_type label_repeated num b (submessages bzs) =
      some (with_submessages num b bzs)
  encode_value _ _ num b _ = none

  unfoldable pub encode : Bytes → List FieldDescriptor → List Value → Option Bytes
  unfolding encode_value
  encode b [] [] = some b
  encode b (f ∷ fields) (v ∷ values) = elim (encode_value f.type f.label f.number b v) [
    | none ↦ none
    | some b' ↦ encode b' fields values
  ]
  encode b _ _ = none

  -- The message of this name in a file, encoded as the file describes it.
  unfoldable pub encode_named : Bytes → List MessageDescriptor → List Value → Option Bytes
  encode_named name [] values = none
  encode_named name (m ∷ messages) values =
      let later = encode_named name messages values in
      if bytes_eq m.name name then encode [] m.fields values else later
