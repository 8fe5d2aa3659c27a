-- ===== src/Metadata/Records.antt =====
-- `Record` and `RecordBatch` of include/kafka/metadata/cluster_metadata.hpp.
use kafka_cpp_server.Prelude.{ℕ, ◌==◌, if◌then◌else◌}
use kafka_cpp_server.Protocol.Types.{
  Bytes, Int8, Int16, Int32, Int64, UInt32, VarInt, VarLong, Array, is_negative,
}
use kafka_cpp_server.Protocol.Outcome.{Io, ◌>>=◌, ◌>>◌, pure, raise, runtime_error, length_error}
use kafka_cpp_server.Protocol.Stream.{Readable, Writable, read, write}
use kafka_cpp_server.Protocol.Reading.{
  read_byte, read_int8, read_int16, read_int32, read_int64, read_uint32, read_varint, read_varlong,
  read_array,
}
use kafka_cpp_server.Protocol.Writing.{
  write_byte, write_int8, write_int16, write_int32, write_int64, write_uint32, write_varint,
  write_varlong, write_array,
}

pub record Record : Type 0 where
  pub length_field : VarInt
  pub attributes : Int8
  pub timestamp_delta : VarLong
  pub offset_delta : VarInt
  pub value_len : VarInt
  pub value : Bytes

pub record RecordBatch : Type 0 where
  pub base_offset : Int64
  pub batch_length : Int32
  pub partition_leader_epoch : Int32
  pub magic : Int8
  pub crc : UInt32
  pub attributes : Int16
  pub last_offset_delta : Int32
  pub base_timestamp : Int64
  pub max_timestamp : Int64
  pub producer_id : Int64
  pub producer_epoch : Int16
  pub base_sequence : Int32
  pub records : Array Record

module _ {S : Type 0} ⦃r : Readable S⦄ where
  -- `c != expected` throws.
  unfoldable pub expect_byte : ℕ → (if_other : Io S (Unit {0})) → Io S (Unit {0})
  expect_byte expected if_other = do c ← read_byte; if c == expected then pure tt else if_other

  -- `value_.resize(value_len_)` throws if the length is negative, since it becomes a huge size.
  unfoldable pub read_value : VarInt → Io S Bytes
  read_value value_len = if is_negative 32 value_len then raise length_error else read value_len

  unfoldable pub read_record : Io S Record
  read_record = do
    length_field ← read_varint
    attributes ← read_int8
    timestamp_delta ← read_varlong
    offset_delta ← read_varint
    expect_byte 0x01 (raise (runtime_error "unexpected key"))
    value_len ← read_varint
    value ← read_value value_len
    expect_byte 0x00 (raise (runtime_error "unexpected record header"))
    pure (record {
      length_field = length_field;
      attributes = attributes;
      timestamp_delta = timestamp_delta;
      offset_delta = offset_delta;
      value_len = value_len;
      value = value;
    })

  unfoldable pub read_record_batch : Io S RecordBatch
  read_record_batch = do
    base_offset ← read_int64
    batch_length ← read_int32
    partition_leader_epoch ← read_int32
    magic ← read_int8
    crc ← read_uint32
    attributes ← read_int16
    last_offset_delta ← read_int32
    base_timestamp ← read_int64
    max_timestamp ← read_int64
    producer_id ← read_int64
    producer_epoch ← read_int16
    base_sequence ← read_int32
    records ← read_array read_record
    pure (record {
      base_offset = base_offset;
      batch_length = batch_length;
      partition_leader_epoch = partition_leader_epoch;
      magic = magic;
      crc = crc;
      attributes = attributes;
      last_offset_delta = last_offset_delta;
      base_timestamp = base_timestamp;
      max_timestamp = max_timestamp;
      producer_id = producer_id;
      producer_epoch = producer_epoch;
      base_sequence = base_sequence;
      records = records;
    })

module _ {S : Type 0} ⦃w : Writable S⦄ where
  unfoldable pub write_record : Record → Io S (Unit {0})
  write_record object = do
    write_varint object.length_field
    write_int8 object.attributes
    write_varlong object.timestamp_delta
    write_varint object.offset_delta
    write_byte 0x01
    write_varint object.value_len
    write object.value
    write_byte 0x00

  unfoldable pub write_record_batch : RecordBatch → Io S (Unit {0})
  write_record_batch object = do
    write_int64 object.base_offset
    write_int32 object.batch_length
    write_int32 object.partition_leader_epoch
    write_int8 object.magic
    write_uint32 object.crc
    write_int16 object.attributes
    write_int32 object.last_offset_delta
    write_int64 object.base_timestamp
    write_int64 object.max_timestamp
    write_int64 object.producer_id
    write_int16 object.producer_epoch
    write_int32 object.base_sequence
    write_array write_record object.records
