-- ===== src/Metadata/ClusterValues.antt =====
-- What the maps of ClusterMetadata hold: ids of 16 bytes, and partition ids of 32 bits.
use kafka_cpp_server.Prelude.{
  ℕ, ◌≡◌, refl, sym, List, [], ◌∷◌, Option, none, some, Bool, true, false, All, All-append, length,
  ◌==◌, if◌then◌else◌, ◌$◌, arith,
}
use mathlib.Core.Path.{subst}
use kafka_cpp_server.Protocol.Types.{Bytes, IsByte, Int32, Uuid}
use kafka_cpp_server.Protocol.Outcome.{Outcome, ok, throw, undefined, unfinished}
use kafka_cpp_server.Protocol.Stream.{Readable, bytes_readable}
use kafka_cpp_server.Protocol.Buffers.{ReadableBuffer, new_readable_buffer, buffer_readable}
use kafka_cpp_server.Protocol.Streams.{InBounds, unread, buffer-IsStream}
use kafka_cpp_server.Protocol.Simulation.{Refines}
use kafka_cpp_server.Protocol.Gives.{Gives-bind, Gives-map, Gives-if, Gives-pure}
use kafka_cpp_server.Protocol.Yields.{
  Yields, Yields-int8, Yields-int32, Yields-uuid, Yields-compact_string, IsBlock, Fits,
}
use kafka_cpp_server.Metadata.Records.{Record, RecordBatch}
use kafka_cpp_server.Metadata.Maps.{Map, equivalent, find, assign}
use kafka_cpp_server.Metadata.Log.{Files, codes, read_record_batches}
use kafka_cpp_server.Metadata.LoadEnds.{LogsFit}
use kafka_cpp_server.Metadata.Events.{Simulates-metadata_record}
use kafka_cpp_server.Metadata.Yields.{IsReadRecord, IsReadBatch, read_record_batches-AreBatches}
use kafka_cpp_server.Metadata.Cluster.{
  ClusterMetadata, empty_metadata, items, add_topic, add_partition, read_topic_record,
  read_partition_record, read_typed_record, read_metadata_record, load_records, load_batches,
  load_cluster,
}

-- Every value of the map satisfies `P`.
abbrev pub Values : {V : Type 0} → (V → Type 0) → Map V → Type 0
Values P m = All (λ (e : _). P e.1) m

same_value : {V : Type 0} {v w : V} → ◌≡◌ {A = Option V} (some v) (some w) → v ≡ w
same_value e = cc

module _ {V : Type 0} (P : V → Type 0) where
  pub find-Values : (k : Bytes) (m : Map V) (v : V) → Values P m → find k m ≡ some v → P v
  unfolding find
  find-Values k [] v h e = cc
  find-Values k ((j, w) ∷ m) v (p, h) e = go (equivalent j k) e (find-Values k m v h)
    where
      go : (b : Bool) → (if b then some w else find k m) ≡ some v → (find k m ≡ some v → P v) → P v
      go true e later = subst P (same_value e) p
      go false e later = later e

  pub assign-Values : (k : Bytes) (v : V) (m : Map V) → P v → Values P m → Values P (assign k v m)
  unfolding assign
  assign-Values k v [] q h = (q, tt)
  assign-Values k v ((j, w) ∷ m) q (p, h) = go (equivalent j k) (assign-Values k v m q h)
    where
      go :
          (b : Bool)
          → Values P (assign k v m)
          → Values P (if b then (j, v) ∷ m else (j, w) ∷ assign k v m)
      go true later = (q, h)
      go false later = (p, later)

abbrev pub IsUuid : Uuid → Type 0
IsUuid id = length id ≡ 16

-- The ids of the maps are UUIDs and 32-bit integers.
pub record IsCluster (cluster : ClusterMetadata) : Type 0 where
  pub ids_valid : Values IsUuid cluster.topic_ids
  pub partitions_valid : Values (All (Fits 32)) cluster.partition_ids

empty_metadata-IsCluster : IsCluster empty_metadata
empty_metadata-IsCluster = record { ids_valid = tt; partitions_valid = tt }

add_topic-IsCluster :
    (name : Bytes) (id : Uuid) (cluster : ClusterMetadata)
    → IsUuid id
    → IsCluster cluster
    → IsCluster (add_topic name id cluster)
unfolding add_topic
add_topic-IsCluster name id cluster h v = record {
  ids_valid = assign-Values IsUuid name id cluster.topic_ids h v.ids_valid;
  partitions_valid = v.partitions_valid;
}

items-valid :
    (id : Uuid) (m : Map (List Int32)) (o : Option (List Int32))
    → find id m ≡ o
    → Values (All (Fits 32)) m
    → All (Fits 32) (items o)
unfolding items
items-valid id m none e h = tt
items-valid id m (some l) e h = find-Values (All (Fits 32)) id m l h e

add_partition-IsCluster :
    (id : Uuid) (partition_id : Int32) (cluster : ClusterMetadata)
    → Fits 32 partition_id
    → IsCluster cluster
    → IsCluster (add_partition id partition_id cluster)
unfolding add_partition
add_partition-IsCluster id partition_id cluster h v = record {
  ids_valid = v.ids_valid;
  partitions_valid =
      assign-Values (All (Fits 32)) id _ cluster.partition_ids
        (All-append (Fits 32) (items (find id cluster.partition_ids)) (partition_id ∷ [])
          (items-valid id cluster.partition_ids _ refl v.partitions_valid) (h, tt))
        v.partitions_valid;
}

module _ (cluster : ClusterMetadata) (v : IsCluster cluster) where
  Yields-topic_record : Yields IsCluster (read_topic_record cluster)
  unfolding read_topic_record
  Yields-topic_record = Gives-bind (All IsByte) IsCluster _ _ Yields-compact_string $ λ name _.
      Gives-map (IsBlock 16) IsCluster _ _ Yields-uuid
        (λ id (h, _). add_topic-IsCluster name id cluster h v)

  Yields-partition_record : Yields IsCluster (read_partition_record cluster)
  unfolding read_partition_record
  Yields-partition_record = Gives-bind (Fits 32) IsCluster _ _ Yields-int32 $ λ partition_id h.
      Gives-map (IsBlock 16) IsCluster _ _ Yields-uuid
        (λ id _. add_partition-IsCluster id partition_id cluster h v)

  Yields-metadata_record : Yields IsCluster (read_metadata_record cluster)
  unfolding read_metadata_record read_typed_record
  Yields-metadata_record = Gives-bind (Fits 8) IsCluster _ _ Yields-int8 $ λ _ _.
      Gives-bind (Fits 8) IsCluster _ _ Yields-int8 $ λ type _.
      Gives-bind (Fits 8) IsCluster _ _ Yields-int8 $ λ _ _.
      Gives-if IsCluster (type == 2) _ _ (λ _. Yields-topic_record)
        (λ _.
          Gives-if IsCluster (type == 3) _ _ (λ _. Yields-partition_record)
            (λ _. Gives-pure IsCluster cluster v))

-- The same of an outcome.
abbrev pub Valid : {A : Type 0} → (A → Type 0) → Outcome A → Type 0
Valid P (ok a) = P a
Valid P _ = Unit

load_record-Valid :
    (cluster : ClusterMetadata) (value : Bytes)
    → All IsByte value
    → IsCluster cluster
    → Valid
        (λ (p : ClusterMetadata × ReadableBuffer). IsCluster p.0)
        (read_metadata_record cluster (new_readable_buffer value))
load_record-Valid cluster value w v =
    go (read_metadata_record cluster (new_readable_buffer value))
      (read_metadata_record cluster value) refl
      ((Simulates-metadata_record InBounds unread buffer-IsStream cluster).at
        (new_readable_buffer value) (omega arith))
  where
    go :
        (o : Outcome (ClusterMetadata × ReadableBuffer)) (p : Outcome (ClusterMetadata × Bytes))
        → read_metadata_record cluster value ≡ p
        → Refines InBounds unread o p
        → Valid (λ (p : ClusterMetadata × ReadableBuffer). IsCluster p.0) o
    go (ok (c, b)) (ok (d, t)) e (same, _, _) =
        subst IsCluster (sym same) ((Yields-metadata_record cluster v).gives value d t w e).0
    go (ok (c, b)) _ e r = absurd r
    go (throw x) p e r = tt
    go undefined p e r = tt
    go unfinished p e r = tt

load_records-Valid :
    (records : List Record) (cluster : ClusterMetadata)
    → All IsReadRecord records
    → IsCluster cluster
    → Valid IsCluster (load_records records cluster)
unfolding load_records
load_records-Valid [] cluster h v = v
load_records-Valid (object ∷ rest) cluster ((_, w), h) v =
    go (read_metadata_record cluster (new_readable_buffer object.value)) refl
      (load_record-Valid cluster object.value w v) (λ next q. load_records-Valid rest next h q)
  where
    go :
        (o : Outcome (ClusterMetadata × ReadableBuffer))
        → read_metadata_record cluster (new_readable_buffer object.value) ≡ o
        → Valid (λ (p : ClusterMetadata × ReadableBuffer). IsCluster p.0) o
        → ((next : ClusterMetadata) → IsCluster next → Valid IsCluster (load_records rest next))
        → Valid IsCluster (load_records (object ∷ rest) cluster)
    go (ok p) e h later = rw (load_records, e) (later p.0 h)
    go (throw x) e h later = rw (load_records, e) tt
    go undefined e h later = rw (load_records, e) tt
    go unfinished e h later = rw (load_records, e) tt

load_batches-Valid :
    (batches : List RecordBatch) (cluster : ClusterMetadata)
    → All IsReadBatch batches
    → IsCluster cluster
    → Valid IsCluster (load_batches batches cluster)
unfolding load_batches
load_batches-Valid [] cluster h v = v
load_batches-Valid (batch ∷ rest) cluster ((_, w), h) v =
    go (load_records batch.records cluster) refl (load_records-Valid batch.records cluster w v)
      (λ next q. load_batches-Valid rest next h q)
  where
    go :
        (o : Outcome ClusterMetadata)
        → load_records batch.records cluster ≡ o
        → Valid IsCluster o
        → ((next : ClusterMetadata) → IsCluster next → Valid IsCluster (load_batches rest next))
        → Valid IsCluster (load_batches (batch ∷ rest) cluster)
    go (ok next) e h later = rw (load_batches, e) (later next h)
    go (throw x) e h later = rw (load_batches, e) tt
    go undefined e h later = rw (load_batches, e) tt
    go unfinished e h later = rw (load_batches, e) tt

-- What the constructor makes of any log of bytes.
pub load_cluster-IsCluster :
    {F : Type 0} ⦃r : Readable F⦄ (files : Files F) (fuel : ℕ) (valid : F → Type 0)
    (view : F → Bytes) (cluster : ClusterMetadata)
    → LogsFit files fuel valid view
    → ((path : Bytes) (f : F) → files.open_file path ≡ some f → All IsByte (view f))
    → load_cluster files fuel ≡ ok cluster
    → IsCluster cluster
unfolding load_cluster
load_cluster-IsCluster {F} files fuel valid view cluster logs of_bytes h =
    subst (Valid IsCluster) h
      (go (read_record_batches files fuel (codes "__cluster_metadata") 0) refl)
  where
    go :
        (o : Outcome (List RecordBatch))
        → read_record_batches files fuel (codes "__cluster_metadata") 0 ≡ o
        → Valid IsCluster (load_cluster files fuel)
    go (ok batches) e =
        rw (load_cluster, e)
          (load_batches-Valid batches empty_metadata
            (read_record_batches-AreBatches files fuel valid view logs of_bytes
              (codes "__cluster_metadata") 0 batches e).1
            empty_metadata-IsCluster)
    go (throw x) e = rw (load_cluster, e) tt
    go undefined e = rw (load_cluster, e) tt
    go unfinished e = rw (load_cluster, e) tt
