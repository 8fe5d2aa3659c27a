-- ===== src/Message/Appends.antt =====
-- Every response can be written to a buffer, whatever its fields hold.
use kafka_cpp_server.Protocol.Stream.{bytes_writable}
use kafka_cpp_server.Protocol.Buffers.{buffer_writable}
use kafka_cpp_server.Protocol.Appends.{Appends, appends_rules}
use kafka_cpp_server.Metadata.Records.{Record, RecordBatch, write_record, write_record_batch}
use kafka_cpp_server.Message.ApiVersions.{
  ApiVersion, ApiVersionsResponse, write_api_version, write_api_versions_response,
}
use kafka_cpp_server.Message.DescribeTopicPartitions.{
  ResponsePartition, ResponseTopic, DescribeTopicPartitionsResponse, write_response_partition,
  write_response_topic, write_describe_topic_partitions_response,
}
use kafka_cpp_server.Message.Fetch.{
  AbortedTransaction, PartitionData, FetchableTopicResponse, FetchResponse,
  write_aborted_transaction, write_partition_data, write_fetchable_topic_response,
  write_fetch_response,
}
use kafka_cpp_server.Message.Messages.{
  AbstractResponse, fetch_response, api_versions_response, describe_topic_partitions_response,
  write_response,
}

Appends-record : (r : Record) → Appends (write_record r) (write_record r)
unfolding write_record
Appends-record r = search appends_rules depth 20

Appends-record_batch : (b : RecordBatch) → Appends (write_record_batch b) (write_record_batch b)
unfolding write_record_batch
Appends-record_batch b = search (appends_rules, Appends-record) depth 30

Appends-api_version : (v : ApiVersion) → Appends (write_api_version v) (write_api_version v)
unfolding write_api_version
Appends-api_version v = search appends_rules depth 20

Appends-api_versions_response :
    (r : ApiVersionsResponse)
    → Appends (write_api_versions_response r) (write_api_versions_response r)
unfolding write_api_versions_response
Appends-api_versions_response r = search (appends_rules, Appends-api_version) depth 20

Appends-response_partition :
    (p : ResponsePartition) → Appends (write_response_partition p) (write_response_partition p)
unfolding write_response_partition
Appends-response_partition p = search appends_rules depth 30

Appends-response_topic :
    (t : ResponseTopic) → Appends (write_response_topic t) (write_response_topic t)
unfolding write_response_topic
Appends-response_topic t = search (appends_rules, Appends-response_partition) depth 20

Appends-describe_topic_partitions_response :
    (r : DescribeTopicPartitionsResponse)
    → Appends
        (write_describe_topic_partitions_response r)
        (write_describe_topic_partitions_response r)
unfolding write_describe_topic_partitions_response
Appends-describe_topic_partitions_response r =
    search (appends_rules, Appends-response_topic) depth 20

Appends-aborted_transaction :
    (t : AbortedTransaction) → Appends (write_aborted_transaction t) (write_aborted_transaction t)
unfolding write_aborted_transaction
Appends-aborted_transaction t = search appends_rules depth 20

Appends-partition_data :
    (p : PartitionData) → Appends (write_partition_data p) (write_partition_data p)
unfolding write_partition_data
Appends-partition_data p =
    search (appends_rules, Appends-aborted_transaction, Appends-record_batch) depth 30

Appends-fetchable_topic_response :
    (t : FetchableTopicResponse)
    → Appends (write_fetchable_topic_response t) (write_fetchable_topic_response t)
unfolding write_fetchable_topic_response
Appends-fetchable_topic_response t = search (appends_rules, Appends-partition_data) depth 20

Appends-fetch_response :
    (r : FetchResponse) → Appends (write_fetch_response r) (write_fetch_response r)
unfolding write_fetch_response
Appends-fetch_response r = search (appends_rules, Appends-fetchable_topic_response) depth 20

pub Appends-response : (r : AbstractResponse) → Appends (write_response r) (write_response r)
unfolding write_response
Appends-response (fetch_response r) = Appends-fetch_response r
Appends-response (api_versions_response r) = Appends-api_versions_response r
Appends-response (describe_topic_partitions_response r) =
    Appends-describe_topic_partitions_response r
