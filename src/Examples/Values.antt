-- ===== src/Examples/Values.antt =====
-- The round trips at concrete values.
use kafka_cpp_server.Prelude.{All, ◌++◌, ◌-◌, ◌^◌, ◌≡◌, refl, [], ◌∷◌, arith}
use kafka_cpp_server.Protocol.Outcome.{undefined}
use kafka_cpp_server.Protocol.Types.{Bytes}
use kafka_cpp_server.Protocol.Stream.{bytes_readable, bytes_writable}
use kafka_cpp_server.Protocol.Buffers.{buffer_writable}
use kafka_cpp_server.Protocol.Reading.{
  read_varlong, read_varint, read_unsigned_varlong, read_compact_string,
}
use kafka_cpp_server.Protocol.Writing.{write_varlong, write_varint, write_compact_nullable_string}
use kafka_cpp_server.Protocol.RoundTrip.{RoundTrip}
use kafka_cpp_server.Protocol.VarIntEnds.{IsContinued, read_unsigned_varlong_overlong}
use kafka_cpp_server.Protocol.ZigZag.{RoundTrip-varlong_any, RoundTrip-varint}
use kafka_cpp_server.Protocol.Sequences.{RoundTrip-compact_string}
use kafka_cpp_server.Metadata.Records.{Record, RecordBatch, read_record_batch, write_record_batch}
use kafka_cpp_server.Metadata.RecordsRoundTrip.{IsRecord, IsRecordBatch, RoundTrip-record_batch}

RoundTrip-varlong_any_example : RoundTrip read_varlong (write_varlong (2 ^ 63)) 0
RoundTrip-varlong_any_example = RoundTrip-varlong_any (2 ^ 63) (omega arith)

-- The VARINT -1.
RoundTrip-varint_example : RoundTrip read_varint (write_varint (2 ^ 32 - 1)) (2 ^ 32 - 1)
RoundTrip-varint_example = RoundTrip-varint (2 ^ 32 - 1) (omega arith)

RoundTrip-compact_string_example :
    RoundTrip read_compact_string (write_compact_nullable_string (97 ∷ 98 ∷ [])) (97 ∷ 98 ∷ [])
RoundTrip-compact_string_example = RoundTrip-compact_string (97 ∷ 98 ∷ []) (omega arith)

abbrev pub some_record : Record
some_record = record {
  length_field = 18;
  attributes = 0;
  timestamp_delta = 2 ^ 64 - 1;
  offset_delta = 1;
  value_len = 3;
  value = 104 ∷ 105 ∷ 33 ∷ [];
}

abbrev pub some_batch : RecordBatch
some_batch = record {
  base_offset = 1;
  batch_length = 60;
  partition_leader_epoch = 0;
  magic = 2;
  crc = 2 ^ 32 - 1;
  attributes = 0;
  last_offset_delta = 0;
  base_timestamp = 1726045943832;
  max_timestamp = 1726045943832;
  producer_id = 2 ^ 64 - 1;
  producer_epoch = 2 ^ 16 - 1;
  base_sequence = 2 ^ 32 - 1;
  records = some_record ∷ [];
}

pub some_record-IsRecord : IsRecord some_record
some_record-IsRecord = record {
  length_field_fits = omega arith;
  attributes_fit = omega arith;
  timestamp_delta_fits = omega arith;
  timestamp_delta_not_min = omega arith;
  offset_delta_fits = omega arith;
  value_len_counts = refl;
  value_fits = omega arith;
}

pub some_batch-IsRecordBatch : IsRecordBatch some_batch
some_batch-IsRecordBatch = record {
  base_offset_fits = omega arith;
  batch_length_fits = omega arith;
  partition_leader_epoch_fits = omega arith;
  magic_fits = omega arith;
  crc_fits = omega arith;
  attributes_fit = omega arith;
  last_offset_delta_fits = omega arith;
  base_timestamp_fits = omega arith;
  max_timestamp_fits = omega arith;
  producer_id_fits = omega arith;
  producer_epoch_fits = omega arith;
  base_sequence_fits = omega arith;
  records_fit = omega arith;
  records_valid = (some_record-IsRecord, tt);
}

RoundTrip-record_batch_example :
    RoundTrip read_record_batch (write_record_batch some_batch) some_batch
RoundTrip-record_batch_example = RoundTrip-record_batch some_batch some_batch-IsRecordBatch

abbrev continued : Bytes
continued = 255 ∷ 255 ∷ 255 ∷ 255 ∷ 255 ∷ 128 ∷ 128 ∷ 128 ∷ 128 ∷ 128 ∷ []

continued-IsContinued : All IsContinued continued
continued-IsContinued = (
  (omega arith, omega arith),
  (
    (omega arith, omega arith),
    (
      (omega arith, omega arith),
      (
        (omega arith, omega arith),
        (
          (omega arith, omega arith),
          (
            (omega arith, omega arith),
            (
              (omega arith, omega arith),
              (
                (omega arith, omega arith),
                ((omega arith, omega arith), ((omega arith, omega arith), tt)),
              ),
            ),
          ),
        ),
      ),
    ),
  ),
)

read_unsigned_varlong_overlong_example : read_unsigned_varlong (continued ++ 1 ∷ []) ≡ undefined
read_unsigned_varlong_overlong_example =
    read_unsigned_varlong_overlong continued 1 [] refl continued-IsContinued
