-- ===== src/Examples/Logs.antt =====
-- The theorems on logs and on the metadata log at concrete ones.
use kafka_cpp_server.Prelude.{ℕ, ◌≡◌, refl, List, [], ◌∷◌, ◌++◌, none, All, arith}
use kafka_cpp_server.Protocol.Types.{Bytes, Uuid}
use kafka_cpp_server.Protocol.Outcome.{ok, throw, runtime_error, ◌>>=◌, pure}
use kafka_cpp_server.Protocol.Stream.{bytes_readable, bytes_writable}
use kafka_cpp_server.Protocol.Buffers.{new_readable_buffer, buffer_readable, buffer_writable}
use kafka_cpp_server.Protocol.Reading.{read_int64}
use kafka_cpp_server.Protocol.ByteOrder.{to_network_byte_order, store, byteswap, le_bytes, le_value}
use kafka_cpp_server.Protocol.Writing.{
  write_objects, write_byte, write_int8, write_uuid, write_compact_nullable_string,
  write_unsigned_varint, write_unsigned_varlong, write_unsigned_varlong_loop,
}
use kafka_cpp_server.Protocol.Streams.{InBounds, unread, buffer-IsStream}
use kafka_cpp_server.Metadata.Records.{RecordBatch, read_record_batch, write_record_batch}
use kafka_cpp_server.Metadata.RecordsRoundTrip.{IsRecordBatch}
use kafka_cpp_server.Metadata.Log.{read_batches_loop}
use kafka_cpp_server.Metadata.LogPaths.{log_file_path-injective}
use kafka_cpp_server.Metadata.LogReading.{log_bytes, log_read_back}
use kafka_cpp_server.Metadata.Cluster.{
  ClusterMetadata, empty_metadata, found, get_topic_id, get_topic_name, get_partition_ids,
  load_batches,
}
use kafka_cpp_server.Metadata.Events.{Event, topic_created, write_event, BatchesCarry}
use kafka_cpp_server.Metadata.Loaded.{
  id_after, name_after, partitions_after, after_batches, loaded_lookups,
}
use kafka_cpp_server.Examples.Values.{some_record, some_batch, some_batch-IsRecordBatch}

abbrev pub one_batch : List RecordBatch
one_batch = some_batch ∷ []

pub one_batch-valid : All IsRecordBatch one_batch
one_batch-valid = (some_batch-IsRecordBatch, tt)

-- A log that is cut off in its second batch.
abbrev pub cut_log : Bytes
cut_log = log_bytes one_batch one_batch-valid ++ 0 ∷ 0 ∷ []

pub nothing_more :
    read_record_batch {S = Bytes} (0 ∷ 0 ∷ []) ≡ throw (runtime_error "end of stream")
unfolding read_record_batch read_int64 ◌>>=◌
nothing_more = refl

log_read_back_example :
    (write_objects write_record_batch one_batch [] ≡ ok (tt, log_bytes one_batch one_batch-valid))
    × (read_batches_loop 2 [] (new_readable_buffer cut_log) ≡ ok one_batch)
log_read_back_example =
    log_read_back one_batch one_batch-valid [] InBounds unread (new_readable_buffer cut_log)
      (0 ∷ 0 ∷ []) 2 buffer-IsStream (omega arith) refl nothing_more (omega arith)

abbrev pub topic_name : Bytes
topic_name = 102 ∷ 111 ∷ 111 ∷ []

abbrev pub topic_id : Uuid
topic_id = 1 ∷ 2 ∷ 3 ∷ 4 ∷ 5 ∷ 6 ∷ 7 ∷ 8 ∷ 9 ∷ 10 ∷ 11 ∷ 12 ∷ 13 ∷ 14 ∷ 15 ∷ 16 ∷ []

-- A batch with one record, of the topic.
abbrev pub topic_record : Bytes
topic_record = 1 ∷ 2 ∷ 0 ∷ 4 ∷ topic_name ++ topic_id

abbrev pub metadata_batch : RecordBatch
metadata_batch = record some_batch {
  records = record some_record { value = topic_record ++ 0 ∷ []; value_len = 24 } ∷ [];
}

abbrev pub topic_event : Event
topic_event = topic_created topic_name topic_id

topic_written : write_event 1 0 topic_event [] ≡ ok (tt, topic_record)
unfolding ◌>>=◌ pure write_int8 write_byte write_uuid write_compact_nullable_string
    write_unsigned_varint write_unsigned_varlong write_unsigned_varlong_loop store
    to_network_byte_order byteswap le_bytes le_value
topic_written = refl

pub batch_carries : BatchesCarry (metadata_batch ∷ []) ((topic_event ∷ []) ∷ [])
batch_carries = (
  (
    record {
      frame_version = 1;
      version = 0;
      written = topic_record;
      more = 0 ∷ [];
      frame_version_fits = omega arith;
      version_fits = omega arith;
      event_fits = (omega arith, refl);
      writes = topic_written;
      value_is = refl;
    },
    tt,
  ),
  tt,
)

loaded_lookups_example :
    (loaded : ClusterMetadata) × (load_batches (metadata_batch ∷ []) empty_metadata ≡ ok loaded)
    × (get_topic_id loaded topic_name
        ≡ found
            (throw (runtime_error "unknown topic name"))
            (after_batches (id_after topic_name) ((topic_event ∷ []) ∷ []) none))
    × (get_topic_name loaded topic_id
        ≡ found
            (throw (runtime_error "unknown topic id"))
            (after_batches (name_after topic_id) ((topic_event ∷ []) ∷ []) none))
    × (get_partition_ids loaded topic_id
        ≡ found
            (throw (runtime_error "unknown topic id"))
            (after_batches (partitions_after topic_id) ((topic_event ∷ []) ∷ []) none))
loaded_lookups_example =
    loaded_lookups (metadata_batch ∷ []) ((topic_event ∷ []) ∷ []) topic_name topic_id batch_carries

log_file_path-injective_example : (topic_name ≡ topic_name) × (◌≡◌ {A = ℕ} 1 1)
log_file_path-injective_example =
    log_file_path-injective topic_name topic_name 1 1 (omega arith) (omega arith) refl
