-- ===== src/Metadata/Cluster.antt =====
-- `ClusterMetadata` of cluster_metadata.hpp and cluster_metadata.cpp. Its mutex is not modelled: the
-- maps do not change after the constructor, so that the order of lookups makes no difference.
use kafka_cpp_server.Prelude.{ℕ, List, [], ◌∷◌, ◌++◌, Option, none, some, ◌==◌, if◌then◌else◌}
use kafka_cpp_server.Protocol.Types.{Bytes, Int32, Uuid}
use kafka_cpp_server.Protocol.Outcome.{
  Outcome, Io, ok, throw, undefined, unfinished, runtime_error, ◌>>=◌, pure,
}
use kafka_cpp_server.Protocol.Stream.{Readable}
use kafka_cpp_server.Protocol.Buffers.{new_readable_buffer, buffer_readable}
use kafka_cpp_server.Protocol.Reading.{read_int8, read_int32, read_compact_string, read_uuid}
use kafka_cpp_server.Metadata.Records.{Record, RecordBatch}
use kafka_cpp_server.Metadata.Maps.{Map, find, assign}
use kafka_cpp_server.Metadata.Log.{Files, codes, read_record_batches}

pub record ClusterMetadata : Type 0 where
  pub topic_ids : Map Uuid
  pub topic_names : Map Bytes
  pub partition_ids : Map (List Int32)

abbrev pub empty_metadata : ClusterMetadata
empty_metadata = record { topic_ids = []; topic_names = []; partition_ids = [] }

-- `iter->second`, or the exception at `end()`.
unfoldable pub found {ℓ} : {V : Type ℓ} → Outcome V → Option V → Outcome V
found missing none = missing
found missing (some v) = ok v

unfoldable pub get_topic_id : ClusterMetadata → Bytes → Outcome Uuid
unfolding found
get_topic_id cluster topic_name =
    found (throw (runtime_error "unknown topic name")) (find topic_name cluster.topic_ids)

unfoldable pub get_topic_name : ClusterMetadata → Uuid → Outcome Bytes
unfolding found
get_topic_name cluster topic_id =
    found (throw (runtime_error "unknown topic id")) (find topic_id cluster.topic_names)

unfoldable pub get_partition_ids : ClusterMetadata → Uuid → Outcome (List Int32)
unfolding found
get_partition_ids cluster topic_id =
    found (throw (runtime_error "unknown topic id")) (find topic_id cluster.partition_ids)

-- `topic_ids_[topic_name] = topic_id; topic_names_[topic_id] = topic_name;`
unfoldable pub add_topic : Bytes → Uuid → ClusterMetadata → ClusterMetadata
add_topic topic_name topic_id cluster = record cluster {
  topic_ids = assign topic_name topic_id cluster.topic_ids;
  topic_names = assign topic_id topic_name cluster.topic_names;
}

-- The vector at a key, which `operator[]` makes empty if it is missing.
unfoldable pub items : Option (List Int32) → List Int32
items none = []
items (some l) = l

-- `partition_ids_[topic_id].push_back(partition_id);`
unfoldable pub add_partition : Uuid → Int32 → ClusterMetadata → ClusterMetadata
unfolding items
add_partition topic_id partition_id cluster = record cluster {
  partition_ids =
      assign topic_id (items (find topic_id cluster.partition_ids) ++ partition_id ∷ [])
        cluster.partition_ids;
}

-- The body of the inner loop of the constructor, its branches first.
module _ {S : Type 0} ⦃r : Readable S⦄ where
  unfoldable pub read_topic_record : ClusterMetadata → Io S ClusterMetadata
  unfolding add_topic
  read_topic_record cluster = do
    topic_name ← read_compact_string
    topic_id ← read_uuid
    pure (add_topic topic_name topic_id cluster)

  unfoldable pub read_partition_record : ClusterMetadata → Io S ClusterMetadata
  unfolding add_partition
  read_partition_record cluster = do
    partition_id ← read_int32
    topic_id ← read_uuid
    pure (add_partition topic_id partition_id cluster)

  unfoldable pub read_typed_record : ℕ → ClusterMetadata → Io S ClusterMetadata
  unfolding read_topic_record read_partition_record
  read_typed_record type cluster =
      if type == 2
      then read_topic_record cluster
      else if type == 3
      then read_partition_record cluster
      else pure cluster

  unfoldable pub read_metadata_record : ClusterMetadata → Io S ClusterMetadata
  unfolding read_typed_record
  read_metadata_record cluster = do
    frame_version ← read_int8
    type ← read_int8
    version ← read_int8
    read_typed_record type cluster

-- The inner loop, over the records of a batch, and the outer one.
unfoldable pub load_records : List Record → ClusterMetadata → Outcome ClusterMetadata
load_records [] cluster = ok cluster
load_records (object ∷ rest) cluster =
    elim (read_metadata_record cluster (new_readable_buffer object.value)) [
      | ok p ↦ load_records rest p.0
      | throw e ↦ throw e
      | undefined ↦ undefined
      | unfinished ↦ unfinished
    ]

unfoldable pub load_batches : List RecordBatch → ClusterMetadata → Outcome ClusterMetadata
load_batches [] cluster = ok cluster
load_batches (record_batch ∷ rest) cluster = elim (load_records record_batch.records cluster) [
  | ok next ↦ load_batches rest next
  | throw e ↦ throw e
  | undefined ↦ undefined
  | unfinished ↦ unfinished
]

-- The constructor.
unfoldable pub load_cluster : {F : Type 0} ⦃r : Readable F⦄ → Files F → ℕ → Outcome ClusterMetadata
load_cluster files fuel = elim (read_record_batches files fuel (codes "__cluster_metadata") 0) [
  | ok record_batches ↦ load_batches record_batches empty_metadata
  | throw e ↦ throw e
  | undefined ↦ undefined
  | unfinished ↦ unfinished
]

-- What the constructor has made is kept.
abbrev pub keep_made : Outcome ClusterMetadata → Outcome (ClusterMetadata × Option ClusterMetadata)
keep_made (ok cluster) = ok (cluster, some cluster)
keep_made (throw e) = throw e
keep_made undefined = undefined
keep_made unfinished = unfinished

-- `get_instance()`: the first call that gets through the constructor keeps what it made.
unfoldable pub get_instance :
    {F : Type 0} ⦃r : Readable F⦄ → Files F → ℕ → Io (Option ClusterMetadata) ClusterMetadata
get_instance files fuel (some cluster) = ok (cluster, some cluster)
get_instance files fuel none = keep_made (load_cluster files fuel)
