-- ===== src/Taskreg/Descriptors.antt =====
-- mychain/x/taskreg/types/proto_descriptor.go: what the descriptors of the module's proto files are
-- made of. The files are in Descriptors/Files, `init` is in Descriptors/Register.
pub mod Files
pub mod Encoder
pub mod Register
pub mod Agree
use poc_cometbft.Prelude.{
  ℕ, List, [], ◌∷◌, ◌++◌, Option, none, some, Outcome, ok, err, panic, ◌>>=◌,
}
use poc_cometbft.Bytes.{Bytes, bytes}
use poc_cometbft.Taskreg.Protowire.{Protowire}

-- The descriptors of descriptor.proto, as far as the code sets their fields.
pub data FieldType : Type 0 where
  string_type uint64_type enum_type message_type : FieldType

pub data Label : Type 0 where
  label_optional label_repeated : Label

pub record FieldDescriptor : Type 0 where
  pub name : Bytes
  pub number : ℕ
  pub type : FieldType
  pub type_name : Option Bytes
  pub label : Label
  pub json_name : Bytes

-- Options are the bytes that `SetUnknown` is given.
pub record MessageDescriptor : Type 0 where
  pub name : Bytes
  pub options : Option Bytes
  pub fields : List FieldDescriptor

pub record MethodDescriptor : Type 0 where
  pub name : Bytes
  pub input_type : Bytes
  pub output_type : Bytes

pub record ServiceDescriptor : Type 0 where
  pub name : Bytes
  pub options : Option Bytes
  pub methods : List MethodDescriptor

pub record EnumDescriptor : Type 0 where
  pub name : Bytes
  pub values : List (Bytes × ℕ)

pub record FileDescriptor : Type 0 where
  pub name : Bytes
  pub package_name : Bytes
  pub syntax : Bytes
  pub dependency : List Bytes
  pub go_package : Bytes
  pub services : List ServiceDescriptor
  pub enums : List EnumDescriptor
  pub messages : List MessageDescriptor

unfoldable pub str_field : Bytes → ℕ → FieldDescriptor
str_field name num = record {
  name = name;
  number = num;
  type = string_type;
  type_name = none;
  label = label_optional;
  json_name = name;
}

unfoldable pub uint64_field : Bytes → ℕ → FieldDescriptor
uint64_field name num = record {
  name = name;
  number = num;
  type = uint64_type;
  type_name = none;
  label = label_optional;
  json_name = name;
}

unfoldable pub enum_field : Bytes → ℕ → Bytes → FieldDescriptor
enum_field name num type_name = record {
  name = name;
  number = num;
  type = enum_type;
  type_name = some type_name;
  label = label_optional;
  json_name = name;
}

unfoldable pub msg_field : Bytes → ℕ → Bytes → FieldDescriptor
msg_field name num type_name = record {
  name = name;
  number = num;
  type = message_type;
  type_name = some type_name;
  label = label_optional;
  json_name = name;
}

unfoldable pub repeated_msg_field : Bytes → ℕ → Bytes → FieldDescriptor
repeated_msg_field name num type_name = record {
  name = name;
  number = num;
  type = message_type;
  type_name = some type_name;
  label = label_repeated;
  json_name = name;
}

module _ (w : Protowire) where
  -- `AppendString` writes what `AppendBytes` writes.
  unfoldable pub signer_opts : Bytes → Bytes
  signer_opts signer_field = w.append_bytes (w.append_tag [] 11110000 w.bytes_type) signer_field

  unfoldable pub service_opts : Bytes
  service_opts = w.append_varint (w.append_tag [] 11110001 w.varint_type) 1
