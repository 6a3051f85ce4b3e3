-- ===== src/Message.antt =====
-- The messages of htmessages.proto, as the structs of include/htmessages.pb-c.h.
use kv_storage_service.Common.{ℕ, ℤ, pos, Option, none, some, List, []}
use kv_storage_service.Text.{Str}
use kv_storage_service.Block.{Bytes}
use kv_storage_service.LinkedList.{KeyArray}

-- ProtobufCBinaryData
pub record BinaryData : Type 0 where
  pub len : ℕ
  pub contents : Option Bytes

-- struct _EntryT
pub record EntryT : Type 0 where
  pub key : Option Str
  pub value : BinaryData

-- struct _StatisticsT
pub record StatisticsT : Type 0 where
  pub n_operations : ℤ
  pub total_time : ℤ
  pub n_clients : ℤ

-- an array of EntryT* that ends with NULL, NULL included
abbrev pub EntryArray : Type 0
EntryArray = List (Option EntryT)

-- struct _MessageT
pub record MessageT : Type 0 where
  pub opcode : ℕ
  pub c_type : ℕ
  pub entry : Option EntryT
  pub key : Option Str
  pub value : BinaryData
  pub result : ℤ
  pub n_keys : ℕ
  pub keys : Option KeyArray
  pub n_entries : ℕ
  pub entries : Option EntryArray
  pub stats : Option StatisticsT

-- MESSAGE_T__INIT
abbrev pub message_init : MessageT
message_init = record {
  opcode = 0;
  c_type = 0;
  entry = none;
  key = some [];
  value = record { len = 0; contents = none };
  result = pos 0;
  n_keys = 0;
  keys = none;
  n_entries = 0;
  entries = none;
  stats = none;
}

-- enum _MessageT__Opcode
abbrev pub op_put : ℕ
op_put = 10

abbrev pub op_get : ℕ
op_get = 20

abbrev pub op_del : ℕ
op_del = 30

abbrev pub op_size : ℕ
op_size = 40

abbrev pub op_getkeys : ℕ
op_getkeys = 50

abbrev pub op_gettable : ℕ
op_gettable = 60

abbrev pub op_stats : ℕ
op_stats = 70

abbrev pub op_error : ℕ
op_error = 99

-- enum _MessageT__CType
abbrev pub ct_entry : ℕ
ct_entry = 10

abbrev pub ct_key : ℕ
ct_key = 20

abbrev pub ct_value : ℕ
ct_value = 30

abbrev pub ct_result : ℕ
ct_result = 40

abbrev pub ct_keys : ℕ
ct_keys = 50

abbrev pub ct_table : ℕ
ct_table = 60

abbrev pub ct_none : ℕ
ct_none = 70

abbrev pub ct_stats : ℕ
ct_stats = 80
