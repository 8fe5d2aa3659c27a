-- ===== src/Metadata/Loading.antt =====
-- The constructor of ClusterMetadata on a file: from the bytes of the metadata log to the lookups.
use kafka_cpp_server.Prelude.{ℕ, ◌<◌, ◌≡◌, List, [], ◌++◌, none, some, length, All}
use kafka_cpp_server.Protocol.Types.{Bytes, Uuid}
use kafka_cpp_server.Protocol.Outcome.{Exception, ok, throw, runtime_error}
use kafka_cpp_server.Protocol.Stream.{Readable, bytes_readable}
use kafka_cpp_server.Protocol.Simulation.{IsStream}
use kafka_cpp_server.Metadata.Records.{RecordBatch, read_record_batch}
use kafka_cpp_server.Metadata.RecordsRoundTrip.{IsRecordBatch}
use kafka_cpp_server.Metadata.Log.{Files, codes, log_file_path, read_opened, read_record_batches}
use kafka_cpp_server.Metadata.LogReading.{log_bytes, log_read_back}
use kafka_cpp_server.Metadata.Cluster.{
  ClusterMetadata, found, get_topic_id, get_topic_name, get_partition_ids, load_cluster,
}
use kafka_cpp_server.Metadata.Events.{Event, BatchesCarry}
use kafka_cpp_server.Metadata.Loaded.{
  id_after, name_after, partitions_after, after_batches, loaded_lookups,
}

-- The log of the topic `__cluster_metadata`.
abbrev pub metadata_path : Bytes
metadata_path = log_file_path (codes "__cluster_metadata") 0

-- If the file of the metadata log holds the bytes of record batches, each record of which carries an
-- event, and behind them a tail that cannot be read as a batch, and there is more fuel than there are
-- batches, then the constructor returns, and the lookups of what it returns are settled by
-- the events alone: a name has the id of the last record of a topic with this name, an id the name of
-- the last with this id, and an id has the partitions of its records in the log's order. Without such
-- a record a lookup throws.
pub load_cluster-lookups :
    {F : Type 0} ⦃r : Readable F⦄ (files : Files F) (valid : F → Type 0) (view : F → Bytes)
    (log_fd : F) (fuel : ℕ) (batches : List RecordBatch) (h : All IsRecordBatch batches)
    (tail : Bytes) (e : Exception) (events : List (List Event)) (name : Bytes) (id : Uuid)
    → IsStream valid view
    → files.open_file metadata_path ≡ some log_fd
    → valid log_fd
    → view log_fd ≡ log_bytes batches h ++ tail
    → read_record_batch tail ≡ throw e
    → length batches < fuel
    → BatchesCarry batches events
    → (cluster : ClusterMetadata) × (load_cluster files fuel ≡ ok cluster)
      × (get_topic_id cluster name
          ≡ found
              (throw (runtime_error "unknown topic name"))
              (after_batches (id_after name) events none))
      × (get_topic_name cluster id
          ≡ found
              (throw (runtime_error "unknown topic id"))
              (after_batches (name_after id) events none))
      × (get_partition_ids cluster id
          ≡ found
              (throw (runtime_error "unknown topic id"))
              (after_batches (partitions_after id) events none))
unfolding load_cluster read_record_batches read_opened
load_cluster-lookups files valid view log_fd fuel batches h tail e events name id stream there v
      holds cut enough carry =
    let (cluster, loads, ids, names, partitions) = loaded_lookups batches events name id carry in
    let (_, is_read) =
      log_read_back batches h [] valid view log_fd tail fuel stream v holds cut enough in
    (
      cluster,
      rw (load_cluster, read_record_batches, read_opened, there, is_read, loads),
      ids,
      names,
      partitions,
    )
