-- ===== src/Examples/Loads.antt =====
-- The constructor of ClusterMetadata at a file system with a metadata log of one topic.
use kafka_cpp_server.Prelude.{
  ◌≢◌, ◌≡◌, refl, [], ◌∷◌, ◌++◌, Option, none, some, All, ◌<◌, length, arith,
}
use kafka_cpp_server.Protocol.Types.{Bytes}
use kafka_cpp_server.Protocol.Outcome.{ok, throw, unfinished, runtime_error}
use kafka_cpp_server.Protocol.Buffers.{ReadableBuffer, new_readable_buffer, buffer_readable}
use kafka_cpp_server.Protocol.Streams.{InBounds, unread, buffer-IsStream}
use kafka_cpp_server.Metadata.RecordsRoundTrip.{IsRecord, IsRecordBatch}
use kafka_cpp_server.Metadata.LogReading.{log_bytes}
use kafka_cpp_server.Metadata.Cluster.{
  ClusterMetadata, found, get_topic_id, get_topic_name, get_partition_ids, load_cluster,
}
use kafka_cpp_server.Metadata.Loaded.{id_after, name_after, partitions_after, after_batches}
use kafka_cpp_server.Metadata.Loading.{load_cluster-lookups}
use kafka_cpp_server.Metadata.Log.{read_batches_loop}
use kafka_cpp_server.Metadata.LogEnds.{read_batches_loop-ends}
use kafka_cpp_server.Server.Handlers.{Environment}
use kafka_cpp_server.Server.Serve.{handle, serve_request}
use kafka_cpp_server.Server.Ends.{serve_request-ends}
use kafka_cpp_server.Metadata.LoadEnds.{LogsFit}
use kafka_cpp_server.Protocol.FileDescriptor.{FileDescriptor, fd_readable, fd_writable}
use kafka_cpp_server.Examples.Kernels.{Wire, wire_kernel, wire-IsReliable, wire-Sends}
use mathlib.Core.Path.{subst}
use kafka_cpp_server.Server.Alone.{result_of, handle-alone}
use kafka_cpp_server.Examples.Values.{some_record}
use kafka_cpp_server.Examples.Logs.{
  topic_name, topic_id, topic_record, metadata_batch, topic_event, batch_carries, nothing_more,
}
use kafka_cpp_server.Examples.Broker.{storage, fetch_message, wire}

topic_record-IsRecord :
    IsRecord (record some_record { value = topic_record ++ 0 ∷ []; value_len = 24 })
topic_record-IsRecord = record {
  length_field_fits = omega arith;
  attributes_fit = omega arith;
  timestamp_delta_fits = omega arith;
  timestamp_delta_not_min = omega arith;
  offset_delta_fits = omega arith;
  value_len_counts = refl;
  value_fits = omega arith;
}

metadata_valid : All IsRecordBatch (metadata_batch ∷ [])
metadata_valid = (
  record {
    base_offset_fits = omega arith;
    batch_length_fits = omega arith;
    partition_leader_epoch_fits = omega arith;
    magic_fits = omega arith;
    crc_fits = omega arith;
    attributes_fit = omega arith;
    last_offset_delta_fits = omega arith;
    base_timestamp_fits = omega arith;
    max_timestamp_fits = omega arith;
    producer_id_fits = omega arith;
    producer_epoch_fits = omega arith;
    base_sequence_fits = omega arith;
    records_fit = omega arith;
    records_valid = (topic_record-IsRecord, tt);
  },
  tt,
)

-- The log ends in two bytes of a batch that is still being written.
abbrev metadata_log : Bytes
metadata_log = log_bytes (metadata_batch ∷ []) metadata_valid ++ 0 ∷ 0 ∷ []

abbrev broker : Environment ReadableBuffer
broker = record {
  files = record { open_file = λ path. some (new_readable_buffer metadata_log) };
  fuel = 2;
}

load_cluster-lookups_example :
    (cluster : ClusterMetadata) × (load_cluster broker.files broker.fuel ≡ ok cluster)
    × (get_topic_id cluster topic_name
        ≡ found
            (throw (runtime_error "unknown topic name"))
            (after_batches (id_after topic_name) ((topic_event ∷ []) ∷ []) none))
    × (get_topic_name cluster topic_id
        ≡ found
            (throw (runtime_error "unknown topic id"))
            (after_batches (name_after topic_id) ((topic_event ∷ []) ∷ []) none))
    × (get_partition_ids cluster topic_id
        ≡ found
            (throw (runtime_error "unknown topic id"))
            (after_batches (partitions_after topic_id) ((topic_event ∷ []) ∷ []) none))
load_cluster-lookups_example =
    load_cluster-lookups broker.files InBounds unread (new_readable_buffer metadata_log) 2
      (metadata_batch ∷ []) metadata_valid (0 ∷ 0 ∷ []) (runtime_error "end of stream")
      ((topic_event ∷ []) ∷ []) topic_name topic_id buffer-IsStream refl (omega arith) refl
      nothing_more (omega arith) batch_carries

abbrev loaded : ClusterMetadata
loaded =
    (load_cluster-lookups broker.files InBounds unread (new_readable_buffer metadata_log) 2
      (metadata_batch ∷ []) metadata_valid (0 ∷ 0 ∷ []) (runtime_error "end of stream")
      ((topic_event ∷ []) ∷ []) topic_name topic_id buffer-IsStream refl (omega arith) refl
      nothing_more (omega arith) batch_carries).0

loaded_from_log : load_cluster broker.files broker.fuel ≡ ok loaded
loaded_from_log =
    (load_cluster-lookups broker.files InBounds unread (new_readable_buffer metadata_log) 2
      (metadata_batch ∷ []) metadata_valid (0 ∷ 0 ∷ []) (runtime_error "end of stream")
      ((topic_event ∷ []) ∷ []) topic_name topic_id buffer-IsStream refl (omega arith) refl
      nothing_more (omega arith) batch_carries).1

handle-alone_example :
    result_of (handle broker storage fetch_message (some loaded))
    ≡ result_of (handle broker storage fetch_message none)
handle-alone_example = handle-alone broker storage fetch_message (some loaded) loaded_from_log

abbrev eight : Bytes
eight = 0 ∷ 0 ∷ 0 ∷ 0 ∷ 0 ∷ 0 ∷ 0 ∷ 0 ∷ []

-- The 61 bytes of a batch without records, and one byte more.
abbrev pub empty_batch : Bytes
empty_batch =
    eight ++ eight ++ eight ++ eight ++ eight ++ eight ++ eight ++ 0 ∷ 0 ∷ 0 ∷ 0 ∷ 0 ∷ 1 ∷ []

read_batches_loop-ends_example :
    (read_batches_loop 63 [] (new_readable_buffer empty_batch) ≢ unfinished)
    × (read_batches_loop 63 [] (new_readable_buffer empty_batch)
        ≡ read_batches_loop 600 [] (new_readable_buffer empty_batch))
read_batches_loop-ends_example =
    read_batches_loop-ends InBounds unread (new_readable_buffer empty_batch) 63 600 []
      buffer-IsStream (omega arith) (omega arith) (omega arith)

-- A broker all of whose logs are the empty batch.
abbrev pub empty_broker : Environment ReadableBuffer
empty_broker = record {
  files = record { open_file = λ path. some (new_readable_buffer empty_batch) };
  fuel = 63;
}

pub file_is : {b c : ReadableBuffer} → ◌≡◌ {A = Option ReadableBuffer} (some b) (some c) → b ≡ c
file_is e = cc

pub empty_logs : LogsFit empty_broker.files empty_broker.fuel InBounds unread
empty_logs = record {
  stream = buffer-IsStream;
  opens_valid = λ path f e. subst InBounds (file_is e) (omega arith);
  fits = λ path f e. subst (λ b. length (unread b) < 63) (file_is e) (omega arith);
}

serve_request-ends_example :
    serve_request {C = FileDescriptor Wire} empty_broker storage
      (record { client = record { fd = wire }; instance_made = none })
    ≢ unfinished
serve_request-ends_example =
    serve_request-ends (λ (k : Wire). k.to_come) (λ (k : Wire). k.sent) wire-IsReliable wire-Sends
      empty_broker InBounds unread storage
      (record { client = record { fd = wire }; instance_made = none }) empty_logs
