-- ===== src/Examples/Exchanges.antt =====
-- The theorems on the answers of a broker, and on what a client reads of them, at concrete inputs.
use kafka_cpp_server.Prelude.{◌≡◌, refl, sym, ◌∙◌, [], ◌∷◌, ◌++◌, none, arith}
use kafka_cpp_server.Protocol.Types.{Bytes}
use kafka_cpp_server.Protocol.Constants
use kafka_cpp_server.Server.Answers.{answer_to}
use kafka_cpp_server.Server.Exchange.{read_answers, serve_client-exchange}
use kafka_cpp_server.Protocol.Outcome.{Outcome, ok, ◌>>=◌, pure}
use kafka_cpp_server.Protocol.Stream.{bytes_readable, bytes_writable}
use kafka_cpp_server.Protocol.Buffers.{buffer_readable}
use kafka_cpp_server.Protocol.ByteOrder.{byteswap, le_bytes, le_value}
use kafka_cpp_server.Protocol.FileDescriptor.{FileDescriptor, fd_readable, fd_writable}
use kafka_cpp_server.Server.Serve.{serve_client}
use kafka_cpp_server.Server.Conversation.{later}
use kafka_cpp_server.Examples.Kernels.{Wire, wire_kernel}
use kafka_cpp_server.Examples.Broker.{versions_message, versions_response}
use mathlib.Core.Path.{subst}
use kafka_cpp_server.Prelude.{
  ℕ, List, some, All, Bool, true, false, ltb, if◌then◌else◌, ◌^◌, ◌<◌, ◌-◌, length,
}
use kafka_cpp_server.Protocol.Types.{IsByte, Int32, nil_uuid}
use kafka_cpp_server.Protocol.Constants.{unknown_topic_or_partition}
use kafka_cpp_server.Protocol.Outcome.{from_outcome}
use kafka_cpp_server.Protocol.Buffers.{read_buffer}
use kafka_cpp_server.Protocol.Reading.{
  read_int32, read_uint32, read_int16, read_int8, read_int64, read_array, read_objects,
}
use kafka_cpp_server.Protocol.ByteOrder.{load, to_host_byte_order}
use kafka_cpp_server.Metadata.Records.{read_record_batch}
use kafka_cpp_server.Metadata.Maps.{find}
use kafka_cpp_server.Metadata.Log.{read_record_batches, read_opened, read_batches_loop}
use kafka_cpp_server.Metadata.Cluster.{
  ClusterMetadata, empty_metadata, load_cluster, load_batches, load_records, get_instance,
  get_topic_id, found,
}
use kafka_cpp_server.Metadata.ClusterValues.{Values}
use kafka_cpp_server.Message.Messages.{
  RequestMessage, AbstractResponse, describe_topic_partitions_request,
  describe_topic_partitions_response, as_describe_topic_partitions_request,
}
use kafka_cpp_server.Message.ResponseValues.{IsResponse}
use kafka_cpp_server.Server.Handlers.{
  handle_describe_topic_partitions, respond_describe_topic_partitions, make_response_topics,
  make_response_topic, describe_topic, new_response_topic,
}
use kafka_cpp_server.Server.Instance.{IsInstance}
use kafka_cpp_server.Server.Serve.{handle}
use kafka_cpp_server.Examples.Loads.{empty_broker, empty_logs, file_is, empty_batch}
use kafka_cpp_server.Examples.Broker.{header}
use kafka_cpp_server.Examples.Sessions.{
  versions_body, versions-IsSent, versions-IsResponseMessage, wire-IsConnection, two_requests,
  two_requests_pending,
}
use kafka_cpp_server.Server.Ranges.{IsStorage, IsBroker}
use kafka_cpp_server.Server.HandleRanges.{handle-IsResponse}
use kafka_cpp_server.Server.Handlers.{Storage}
use kafka_cpp_server.Protocol.Streams.{InBounds, unread}
use kafka_cpp_server.Protocol.Buffers.{ReadableBuffer}

abbrev plain_storage : Storage
plain_storage = record {
  fetched = λ i j. record {
    high_watermark = 1;
    last_stable_offset = 2;
    log_start_offset = 3;
    preferred_read_replica = 4;
  };
  described = λ i. record {
    is_internal = false;
    topic_authorized_operations = 5;
    replicas = λ j. record { leader_id = 6; leader_epoch = 7 };
  };
}

plain_storage-IsStorage : IsStorage plain_storage
plain_storage-IsStorage = record {
  fetched_fit = λ i j. record {
    high_watermark_fits = omega arith;
    last_stable_offset_fits = omega arith;
    log_start_offset_fits = omega arith;
    preferred_read_replica_fits = omega arith;
  };
  described_fit = λ i. record {
    topic_authorized_operations_fit = omega arith;
    replicas_fit = λ j. (omega arith, omega arith);
  };
}

nothing_loaded : load_cluster empty_broker.files empty_broker.fuel ≡ ok empty_metadata
unfolding load_cluster read_record_batches read_opened read_batches_loop read_record_batch
    read_int64 read_int32 read_uint32 read_int16 read_int8 read_array read_objects read_buffer load
    to_host_byte_order byteswap le_bytes le_value ◌>>=◌ pure load_batches load_records
nothing_loaded = refl

abbrev all_small : Bytes → Bool
all_small [] = true
all_small (b ∷ bs) = if ltb b 256 then all_small bs else false

small-IsByte :
    (b : ℕ) (rest : Bool) → (if ltb b 256 then rest else false) ≡ true → IsByte b × (rest ≡ true)
small-IsByte b rest h = ground arith

all_small-IsByte : (bs : Bytes) → all_small bs ≡ true → All IsByte bs
all_small-IsByte [] h = tt
all_small-IsByte (b ∷ bs) h =
    let (small, rest) = small-IsByte b (all_small bs) h in (small, all_small-IsByte bs rest)

empty_broker-IsBroker : IsBroker empty_broker InBounds unread
empty_broker-IsBroker = record {
  logs = empty_logs;
  of_bytes = λ path f e.
      subst (λ (b : ReadableBuffer). All IsByte (unread b)) (file_is e)
        (all_small-IsByte empty_batch refl);
  fuel_fits = omega arith;
  few_partitions = λ cluster e.
      subst
        (λ (c : ClusterMetadata).
          Values (λ (l : List Int32). length l < 2 ^ 32 - 1) c.partition_ids)
        (same_cluster (sym nothing_loaded ∙ e)) tt;
}
  where
    same_cluster : {a b : ClusterMetadata} → ◌≡◌ {A = Outcome ClusterMetadata} (ok a) (ok b) → a ≡ b
    same_cluster e = cc

versions_answered :
    handle empty_broker plain_storage versions_message none ≡ ok (versions_response, none)
unfolding handle pure
versions_answered = refl

abbrev unknown_message : RequestMessage
unknown_message = record {
  header = header Constants.describe_topic_partitions 0;
  request =
      describe_topic_partitions_request
        (record { topics = record { name = 120 ∷ [] } ∷ []; response_partition_limit = 100 });
}

abbrev unknown_response : AbstractResponse
unknown_response = describe_topic_partitions_response (record {
  throttle_time_ms = 0;
  topics =
      record {
        error_code = unknown_topic_or_partition;
        name = 120 ∷ [];
        topic_id = nil_uuid;
        is_internal = false;
        partitions = [];
        topic_authorized_operations = 5;
      }
      ∷ [];
})

unknown_answered :
    handle empty_broker plain_storage unknown_message none
    ≡ ok (unknown_response, some empty_metadata)
unfolding handle handle_describe_topic_partitions respond_describe_topic_partitions
    as_describe_topic_partitions_request make_response_topics make_response_topic get_instance
    describe_topic get_topic_id found find new_response_topic from_outcome ◌>>=◌ pure
unknown_answered = rw nothing_loaded refl

handle-IsResponse_example :
    IsResponse unknown_response × IsInstance empty_broker (some empty_metadata)
handle-IsResponse_example =
    handle-IsResponse empty_broker InBounds unread plain_storage unknown_message none
      (some empty_metadata) unknown_response empty_broker-IsBroker plain_storage-IsStorage
      (refl, (omega arith, (omega arith, tt), omega arith)) tt unknown_answered

serve_client-exchange_example :
    (s' : FileDescriptor Wire) × (bytes : Bytes) × (serve_client empty_broker 5
        (λ r. plain_storage)
        (record { client = record { fd = two_requests }; instance_made = none })
      ≡ serve_client empty_broker 3
          (later 2 (λ r. plain_storage))
          (record { client = s'; instance_made = none }))
    × (s'.fd.sent ≡ bytes)
    × (s'.fd.to_come ≡ 0 ∷ 1 ∷ [])
    × ((more : Bytes)
        → read_answers (versions_message ∷ versions_message ∷ []) (bytes ++ more)
          ≡ ok (
            answer_to versions_message versions_response
                ∷ answer_to versions_message versions_response
                ∷ [],
            more,
          ))
serve_client-exchange_example =
    serve_client-exchange (λ (k : Wire). k.to_come) (λ (k : Wire). k.sent) wire-IsConnection
      empty_broker InBounds unread (versions_message ∷ versions_message ∷ [])
      (versions_body ∷ versions_body ∷ []) (versions_response ∷ versions_response ∷ []) (0 ∷ 1 ∷ [])
      (λ r. plain_storage) (record { fd = two_requests }) none none 5 3 refl
      (versions-IsSent, (versions-IsSent, tt)) two_requests_pending
      (none, versions_answered, (none, versions_answered, refl)) empty_broker-IsBroker
      (λ r. plain_storage-IsStorage) tt
      (versions-IsResponseMessage.size_fits, (versions-IsResponseMessage.size_fits, tt))
