-- ===== src/Server/Handlers.antt =====
-- The handlers of src/network/server.cpp. A local of class type has the values that its storage held
-- in the fields that no constructor sets: these values are arguments, one for each object.
use kafka_cpp_server.Prelude.{
  ℕ, suc, List, [], ◌∷◌, ◌++◌, Option, none, some, length, ◌==◌, if◌then◌else◌,
}
use kafka_cpp_server.Protocol.Types.{Bytes, Int32, Int64, Boolean, Uuid, nil_uuid}
use kafka_cpp_server.Protocol.Constants
use kafka_cpp_server.Protocol.Constants.{
  ErrorCode, no_error, unknown_topic_or_partition, unsupported_version, unknown_topic_id,
}
use kafka_cpp_server.Protocol.Outcome.{
  Outcome, Io, ok, throw, undefined, unfinished, ◌>>=◌, pure, undefined_behaviour, from_outcome,
}
use kafka_cpp_server.Protocol.Stream.{Readable}
use kafka_cpp_server.Metadata.Records.{RecordBatch}
use kafka_cpp_server.Metadata.Log.{Files, read_record_batches}
use kafka_cpp_server.Metadata.Cluster.{
  ClusterMetadata, get_topic_id, get_topic_name, get_partition_ids, get_instance,
}
use kafka_cpp_server.Message.ApiVersions.{ApiVersionsResponse}
use kafka_cpp_server.Message.DescribeTopicPartitions.{
  TopicRequest, DescribeTopicPartitionsRequest, ResponsePartition, ResponseTopic,
  DescribeTopicPartitionsResponse,
}
use kafka_cpp_server.Message.Fetch.{
  FetchPartition, FetchTopic, FetchRequest, PartitionData, FetchableTopicResponse, FetchResponse,
}
use kafka_cpp_server.Message.Messages.{
  RequestMessage, as_fetch_request, as_describe_topic_partitions_request,
}

-- What the storage of a PartitionData held in the fields that nothing sets.
pub record PartitionStorage : Type 0 where
  pub high_watermark : Int64
  pub last_stable_offset : Int64
  pub log_start_offset : Int64
  pub preferred_read_replica : Int32

-- The same for a ResponsePartition and for a ResponseTopic with its partitions.
pub record ReplicaStorage : Type 0 where
  pub leader_id : Int32
  pub leader_epoch : Int32

pub record TopicStorage : Type 0 where
  pub is_internal : Boolean
  pub topic_authorized_operations : Int32
  pub replicas : ℕ → ReplicaStorage

-- The contents of the storage of all locals, by the position of topics and partitions.
pub record Storage : Type 0 where
  pub fetched : ℕ → ℕ → PartitionStorage
  pub described : ℕ → TopicStorage

unfoldable pub new_partition_data :
    PartitionStorage → Int32 → ErrorCode → List RecordBatch → PartitionData
new_partition_data storage partition_index error_code records = record {
  partition_index = partition_index;
  error_code = error_code;
  high_watermark = storage.high_watermark;
  last_stable_offset = storage.last_stable_offset;
  log_start_offset = storage.log_start_offset;
  aborted_transactions = [];
  preferred_read_replica = storage.preferred_read_replica;
  records = records;
}

unfoldable pub new_response_partition : ReplicaStorage → ErrorCode → Int32 → ResponsePartition
new_response_partition storage error_code partition_index = record {
  error_code = error_code;
  partition_index = partition_index;
  leader_id = storage.leader_id;
  leader_epoch = storage.leader_epoch;
  replica_nodes = [];
  isr_nodes = [];
  eligible_leader_replicas = [];
  last_known_elr = [];
  offline_replicas = [];
}

unfoldable pub new_response_topic :
    TopicStorage → ErrorCode → Bytes → Uuid → List ResponsePartition → ResponseTopic
new_response_topic storage error_code name topic_id partitions = record {
  error_code = error_code;
  name = name;
  topic_id = topic_id;
  is_internal = storage.is_internal;
  partitions = partitions;
  topic_authorized_operations = storage.topic_authorized_operations;
}

-- The `catch` block, which finds what the `try` block has pushed.
unfoldable pub catch_partitions :
    (ℕ → PartitionStorage) → List PartitionData × Outcome (Unit {0}) → Outcome (List PartitionData)
unfolding new_partition_data
catch_partitions storage (pushed, ok _) = ok pushed
catch_partitions storage (pushed, throw e) =
    ok (pushed ++ new_partition_data (storage (length pushed)) 0 unknown_topic_id [] ∷ [])
catch_partitions storage (pushed, undefined) = undefined
catch_partitions storage (pushed, unfinished) = unfinished

-- The partitions of `make_response_topic`.
unfoldable pub describe_partitions : (ℕ → ReplicaStorage) → List Int32 → List ResponsePartition
unfolding new_response_partition
describe_partitions storage [] = []
describe_partitions storage (partition_id ∷ rest) =
    new_response_partition (storage 0) no_error partition_id
    ∷ describe_partitions (λ j. storage (suc j)) rest

-- `make_response_topic` after the `try` block, which returns early if the name is unknown. The
-- lookup of the partitions stands outside it.
unfoldable pub describe_topic :
    TopicStorage → Bytes → ClusterMetadata → Outcome Uuid → Outcome ResponseTopic
unfolding new_response_topic describe_partitions
describe_topic storage name cluster (ok topic_id) = elim (get_partition_ids cluster topic_id) [
  | ok partition_ids ↦ ok (
      new_response_topic storage no_error name topic_id
        (describe_partitions storage.replicas partition_ids))
  | throw e ↦ throw e
  | undefined ↦ undefined
  | unfinished ↦ unfinished
]
describe_topic storage name cluster (throw e) =
    ok (new_response_topic storage unknown_topic_or_partition name nil_uuid [])
describe_topic storage name cluster undefined = undefined
describe_topic storage name cluster unfinished = unfinished

pub record Environment (F : Type 0) : Type 0 where
  pub files : Files F
  -- A bound on the rounds of the loop that reads a log.
  pub fuel : ℕ

module _ {F : Type 0} ⦃r : Readable F⦄ (env : Environment F) where
  unfoldable pub make_partition_data : PartitionStorage → Bytes → Int32 → Outcome PartitionData
  unfolding new_partition_data
  make_partition_data storage topic_name partition_index =
      elim (read_record_batches env.files env.fuel topic_name partition_index) [
        | ok records ↦ ok (new_partition_data storage partition_index no_error records)
        | throw e ↦ throw e
        | undefined ↦ undefined
        | unfinished ↦ unfinished
      ]

  -- The loop over the partitions of a topic: what it has pushed, and how it ends.
  unfoldable pub make_partitions :
      (ℕ → PartitionStorage) → Bytes → List FetchPartition → List PartitionData × Outcome (Unit {0})
  unfolding make_partition_data
  make_partitions storage topic_name [] = ([], ok tt)
  make_partitions storage topic_name (fetch_partition ∷ rest) =
      elim (make_partition_data (storage 0) topic_name fetch_partition.partition) [
        | ok partition_data ↦
            let (pushed, end) = make_partitions (λ j. storage (suc j)) topic_name rest in
            (partition_data ∷ pushed, end)
        | throw e ↦ ([], throw e)
        | undefined ↦ ([], undefined)
        | unfinished ↦ ([], unfinished)
      ]

  -- The `try` block of `make_fetchable_topic_response`.
  unfoldable pub try_partitions :
      (ℕ → PartitionStorage)
      → ClusterMetadata
      → FetchTopic
      → List PartitionData × Outcome (Unit {0})
  unfolding make_partitions
  try_partitions storage cluster fetch_topic = elim (get_topic_name cluster fetch_topic.topic_id) [
    | ok topic_name ↦ make_partitions storage topic_name fetch_topic.partitions
    | throw e ↦ ([], throw e)
    | undefined ↦ ([], undefined)
    | unfinished ↦ ([], unfinished)
  ]

  unfoldable pub make_fetchable_topic_response :
      (ℕ → PartitionStorage) → FetchTopic → Io (Option ClusterMetadata) FetchableTopicResponse
  unfolding try_partitions catch_partitions
  make_fetchable_topic_response storage fetch_topic = do
    cluster ← get_instance env.files env.fuel
    partitions ←
        from_outcome (catch_partitions storage (try_partitions storage cluster fetch_topic))
    pure (record { topic_id = fetch_topic.topic_id; partitions = partitions })

  unfoldable pub make_fetchable_topic_responses :
      (ℕ → ℕ → PartitionStorage)
      → List FetchTopic
      → Io (Option ClusterMetadata) (List FetchableTopicResponse)
  make_fetchable_topic_responses storage [] = pure []
  make_fetchable_topic_responses storage (fetch_topic ∷ rest) = do
    response ← make_fetchable_topic_response (storage 0) fetch_topic
    responses ← make_fetchable_topic_responses (λ i. storage (suc i)) rest
    pure (response ∷ responses)

  unfoldable pub respond_fetch :
      Storage → Option FetchRequest → Io (Option ClusterMetadata) FetchResponse
  respond_fetch storage none = undefined_behaviour
  respond_fetch storage (some request) = do
    responses ← make_fetchable_topic_responses storage.fetched request.topics
    pure (record {
      throttle_time_ms = 0;
      error_code = no_error;
      session_id = 0;
      responses = responses;
    })

  unfoldable pub handle_fetch : Storage → RequestMessage → Io (Option ClusterMetadata) FetchResponse
  unfolding respond_fetch
  handle_fetch storage request_message =
      respond_fetch storage (as_fetch_request request_message.request)

  unfoldable pub make_response_topic :
      TopicStorage → TopicRequest → Io (Option ClusterMetadata) ResponseTopic
  unfolding describe_topic
  make_response_topic storage topic_request = do
    cluster ← get_instance env.files env.fuel
    from_outcome (
        describe_topic storage topic_request.name cluster (get_topic_id cluster topic_request.name))

  unfoldable pub make_response_topics :
      (ℕ → TopicStorage) → List TopicRequest → Io (Option ClusterMetadata) (List ResponseTopic)
  make_response_topics storage [] = pure []
  make_response_topics storage (topic_request ∷ rest) = do
    topic ← make_response_topic (storage 0) topic_request
    topics ← make_response_topics (λ i. storage (suc i)) rest
    pure (topic ∷ topics)

  unfoldable pub respond_describe_topic_partitions :
      Storage
      → Option DescribeTopicPartitionsRequest
      → Io (Option ClusterMetadata) DescribeTopicPartitionsResponse
  respond_describe_topic_partitions storage none = undefined_behaviour
  respond_describe_topic_partitions storage (some request) = do
    topics ← make_response_topics storage.described request.topics
    pure (record { throttle_time_ms = 0; topics = topics })

  unfoldable pub handle_describe_topic_partitions :
      Storage → RequestMessage → Io (Option ClusterMetadata) DescribeTopicPartitionsResponse
  unfolding respond_describe_topic_partitions
  handle_describe_topic_partitions storage request_message =
      respond_describe_topic_partitions storage
        (as_describe_topic_partitions_request request_message.request)

-- `handle_api_versions`, which does not look into the request.
unfoldable pub handle_api_versions : RequestMessage → ApiVersionsResponse
handle_api_versions request_message =
    if request_message.header.request_api_version == 4
    then record {
      error_code = no_error;
      api_keys =
          record { api_key = Constants.fetch; min_version = 0; max_version = 16 }
          ∷ record { api_key = Constants.api_versions; min_version = 0; max_version = 4 }
          ∷ record {
            api_key = Constants.describe_topic_partitions;
            min_version = 0;
            max_version = 0;
          }
          ∷ [];
      throttle_time_ms = 0;
    }
    else record { error_code = unsupported_version; api_keys = []; throttle_time_ms = 0 }
