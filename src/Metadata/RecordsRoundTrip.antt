-- ===== src/Metadata/RecordsRoundTrip.antt =====
-- A record batch is read back as it was written. The values that fit their fields are those of
-- `IsRecord` and `IsRecordBatch`.
use kafka_cpp_server.Prelude.{ℕ, ◌^◌, ◌<◌, ◌≡◌, ◌≢◌, refl, length, All, lt→leb, ◌$◌, arith}
use kafka_cpp_server.Protocol.Types.{Bytes}
use kafka_cpp_server.Protocol.Outcome.{Io}
use kafka_cpp_server.Protocol.Stream.{bytes_readable, bytes_writable, write}
use kafka_cpp_server.Protocol.Writing.{write_byte}
use kafka_cpp_server.Protocol.RoundTrip.{
  RoundTrip, RoundTrip-bind, RoundTrip-read, RoundTrip-last, RoundTrip-accept,
}
use kafka_cpp_server.Protocol.Integers.{
  RoundTrip-byte, RoundTrip-int8, RoundTrip-int16, RoundTrip-int32, RoundTrip-int64,
  RoundTrip-uint32,
}
use kafka_cpp_server.Protocol.ZigZag.{RoundTrip-varint, RoundTrip-varlong}
use kafka_cpp_server.Protocol.Sequences.{RoundTrip-array}
use kafka_cpp_server.Metadata.Records.{
  Record, RecordBatch, expect_byte, read_value, read_record, read_record_batch, write_record,
  write_record_batch,
}

-- The fields fit their widths, the length is that of the value, and the timestamp is not -2 ^ 63.
pub record IsRecord (r : Record) : Type 0 where
  pub length_field_fits : r.length_field < 2 ^ 32
  pub attributes_fit : r.attributes < 2 ^ 8
  pub timestamp_delta_fits : r.timestamp_delta < 2 ^ 64
  pub timestamp_delta_not_min : r.timestamp_delta ≢ 2 ^ 63
  pub offset_delta_fits : r.offset_delta < 2 ^ 32
  pub value_len_counts : r.value_len ≡ length r.value
  pub value_fits : length r.value < 2 ^ 31

pub record IsRecordBatch (b : RecordBatch) : Type 0 where
  pub base_offset_fits : b.base_offset < 2 ^ 64
  pub batch_length_fits : b.batch_length < 2 ^ 32
  pub partition_leader_epoch_fits : b.partition_leader_epoch < 2 ^ 32
  pub magic_fits : b.magic < 2 ^ 8
  pub crc_fits : b.crc < 2 ^ 32
  pub attributes_fit : b.attributes < 2 ^ 16
  pub last_offset_delta_fits : b.last_offset_delta < 2 ^ 32
  pub base_timestamp_fits : b.base_timestamp < 2 ^ 64
  pub max_timestamp_fits : b.max_timestamp < 2 ^ 64
  pub producer_id_fits : b.producer_id < 2 ^ 64
  pub producer_epoch_fits : b.producer_epoch < 2 ^ 16
  pub base_sequence_fits : b.base_sequence < 2 ^ 32
  pub records_fit : length b.records < 2 ^ 31
  pub records_valid : All IsRecord b.records

RoundTrip-expected_one :
    (e : Io Bytes (Unit {0})) → RoundTrip (expect_byte 0x01 e) (write_byte 0x01) tt
unfolding expect_byte
RoundTrip-expected_one e = RoundTrip-accept _ (RoundTrip-byte 0x01 (omega arith)) refl

RoundTrip-expected_zero :
    (e : Io Bytes (Unit {0})) → RoundTrip (expect_byte 0x00 e) (write_byte 0x00) tt
unfolding expect_byte
RoundTrip-expected_zero e = RoundTrip-accept _ (RoundTrip-byte 0x00 (omega arith)) refl

RoundTrip-value :
    (n : ℕ) (bs : Bytes)
    → n ≡ length bs
    → length bs < 2 ^ 31
    → RoundTrip (read_value n) (write bs) bs
unfolding read_value
RoundTrip-value n bs e h = rw (e, lt→leb (2 ^ 31) (length bs) h) (RoundTrip-read bs)

pub RoundTrip-record : (r : Record) → IsRecord r → RoundTrip read_record (write_record r) r
unfolding read_record write_record
RoundTrip-record r h =
    RoundTrip-bind _ (RoundTrip-varint r.length_field h.length_field_fits)
    $ RoundTrip-bind _ (RoundTrip-int8 r.attributes h.attributes_fit)
    $ RoundTrip-bind _
        (RoundTrip-varlong r.timestamp_delta h.timestamp_delta_fits h.timestamp_delta_not_min)
    $ RoundTrip-bind _ (RoundTrip-varint r.offset_delta h.offset_delta_fits)
    $ RoundTrip-bind _ (RoundTrip-expected_one _)
    $ RoundTrip-bind _ (RoundTrip-varint r.value_len value_len_fits)
    $ RoundTrip-bind _ (RoundTrip-value r.value_len r.value h.value_len_counts h.value_fits)
    $ RoundTrip-last _ (RoundTrip-expected_zero _)
  where
    value_len_fits : r.value_len < 2 ^ 32
    value_len_fits = omega (arith, h.value_len_counts, h.value_fits)

-- A record batch with all its records is read back from what `write_record_batch` has appended, and
-- what follows it is left unread, if each field is in its range, each value has the length that its
-- record says, and no timestamp delta is -2 ^ 63.
pub RoundTrip-record_batch :
    (b : RecordBatch) → IsRecordBatch b → RoundTrip read_record_batch (write_record_batch b) b
unfolding read_record_batch write_record_batch
RoundTrip-record_batch b h =
    RoundTrip-bind _ (RoundTrip-int64 b.base_offset h.base_offset_fits)
    $ RoundTrip-bind _ (RoundTrip-int32 b.batch_length h.batch_length_fits)
    $ RoundTrip-bind _ (RoundTrip-int32 b.partition_leader_epoch h.partition_leader_epoch_fits)
    $ RoundTrip-bind _ (RoundTrip-int8 b.magic h.magic_fits)
    $ RoundTrip-bind _ (RoundTrip-uint32 b.crc h.crc_fits)
    $ RoundTrip-bind _ (RoundTrip-int16 b.attributes h.attributes_fit)
    $ RoundTrip-bind _ (RoundTrip-int32 b.last_offset_delta h.last_offset_delta_fits)
    $ RoundTrip-bind _ (RoundTrip-int64 b.base_timestamp h.base_timestamp_fits)
    $ RoundTrip-bind _ (RoundTrip-int64 b.max_timestamp h.max_timestamp_fits)
    $ RoundTrip-bind _ (RoundTrip-int64 b.producer_id h.producer_id_fits)
    $ RoundTrip-bind _ (RoundTrip-int16 b.producer_epoch h.producer_epoch_fits)
    $ RoundTrip-bind _ (RoundTrip-int32 b.base_sequence h.base_sequence_fits)
    $ RoundTrip-last _
        (RoundTrip-array IsRecord RoundTrip-record b.records h.records_fit h.records_valid)
