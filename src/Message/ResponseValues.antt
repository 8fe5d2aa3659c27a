-- ===== src/Message/ResponseValues.antt =====
-- The responses of include/kafka/message whose fields are in their ranges.
use kafka_cpp_server.Prelude.{ℕ, ◌-◌, ◌^◌, ◌<◌, ◌≡◌, List, length, All}
use kafka_cpp_server.Metadata.RecordsRoundTrip.{IsRecordBatch}
use kafka_cpp_server.Message.ApiVersions.{ApiVersion, ApiVersionsResponse}
use kafka_cpp_server.Message.DescribeTopicPartitions.{
  ResponsePartition, ResponseTopic, DescribeTopicPartitionsResponse,
}
use kafka_cpp_server.Message.Fetch.{
  AbortedTransaction, PartitionData, FetchableTopicResponse, FetchResponse,
}
use kafka_cpp_server.Message.Messages.{
  AbstractResponse, fetch_response, api_versions_response, describe_topic_partitions_response,
}
use kafka_cpp_server.Message.Requests.{IsName}

pub record IsApiVersion (v : ApiVersion) : Type 0 where
  pub api_key_fits : v.api_key < 2 ^ 16
  pub min_version_fits : v.min_version < 2 ^ 16
  pub max_version_fits : v.max_version < 2 ^ 16

pub record IsApiVersionsResponse (r : ApiVersionsResponse) : Type 0 where
  pub error_code_fits : r.error_code < 2 ^ 16
  pub api_keys_fit : length r.api_keys < 2 ^ 32 - 1
  pub api_keys_valid : All IsApiVersion r.api_keys
  pub throttle_time_ms_fits : r.throttle_time_ms < 2 ^ 32

abbrev pub IsInt32 : ℕ → Type 0
IsInt32 n = n < 2 ^ 32

abbrev pub IsInt32Array : List ℕ → Type 0
IsInt32Array ns = (length ns < 2 ^ 32 - 1) × All IsInt32 ns

pub record IsResponsePartition (p : ResponsePartition) : Type 0 where
  pub error_code_fits : p.error_code < 2 ^ 16
  pub partition_index_fits : p.partition_index < 2 ^ 32
  pub leader_id_fits : p.leader_id < 2 ^ 32
  pub leader_epoch_fits : p.leader_epoch < 2 ^ 32
  pub replica_nodes_fit : IsInt32Array p.replica_nodes
  pub isr_nodes_fit : IsInt32Array p.isr_nodes
  pub eligible_leader_replicas_fit : IsInt32Array p.eligible_leader_replicas
  pub last_known_elr_fit : IsInt32Array p.last_known_elr
  pub offline_replicas_fit : IsInt32Array p.offline_replicas

pub record IsResponseTopic (t : ResponseTopic) : Type 0 where
  pub error_code_fits : t.error_code < 2 ^ 16
  pub name_fits : IsName t.name
  pub topic_id_fits : length t.topic_id ≡ 16
  pub partitions_fit : length t.partitions < 2 ^ 32 - 1
  pub partitions_valid : All IsResponsePartition t.partitions
  pub topic_authorized_operations_fit : t.topic_authorized_operations < 2 ^ 32

pub record IsDescribeTopicPartitionsResponse (r : DescribeTopicPartitionsResponse) : Type 0 where
  pub throttle_time_ms_fits : r.throttle_time_ms < 2 ^ 32
  pub topics_fit : length r.topics < 2 ^ 32 - 1
  pub topics_valid : All IsResponseTopic r.topics

abbrev pub IsAbortedTransaction : AbortedTransaction → Type 0
IsAbortedTransaction t = (t.producer_id < 2 ^ 64) × (t.first_offset < 2 ^ 64)

pub record IsPartitionData (p : PartitionData) : Type 0 where
  pub partition_index_fits : p.partition_index < 2 ^ 32
  pub error_code_fits : p.error_code < 2 ^ 16
  pub high_watermark_fits : p.high_watermark < 2 ^ 64
  pub last_stable_offset_fits : p.last_stable_offset < 2 ^ 64
  pub log_start_offset_fits : p.log_start_offset < 2 ^ 64
  pub aborted_fit : length p.aborted_transactions < 2 ^ 32 - 1
  pub aborted_valid : All IsAbortedTransaction p.aborted_transactions
  pub preferred_read_replica_fits : p.preferred_read_replica < 2 ^ 32
  pub records_fit : length p.records < 2 ^ 32 - 1
  pub records_valid : All IsRecordBatch p.records

pub record IsFetchableTopicResponse (t : FetchableTopicResponse) : Type 0 where
  pub topic_id_fits : length t.topic_id ≡ 16
  pub partitions_fit : length t.partitions < 2 ^ 32 - 1
  pub partitions_valid : All IsPartitionData t.partitions

pub record IsFetchResponse (r : FetchResponse) : Type 0 where
  pub throttle_time_ms_fits : r.throttle_time_ms < 2 ^ 32
  pub error_code_fits : r.error_code < 2 ^ 16
  pub session_id_fits : r.session_id < 2 ^ 32
  pub responses_fit : length r.responses < 2 ^ 32 - 1
  pub responses_valid : All IsFetchableTopicResponse r.responses

abbrev pub IsResponse : AbstractResponse → Type 0
IsResponse (fetch_response r) = IsFetchResponse r
IsResponse (api_versions_response r) = IsApiVersionsResponse r
IsResponse (describe_topic_partitions_response r) = IsDescribeTopicPartitionsResponse r
