-- ===== src/Metadata/LoadEnds.antt =====
-- The constructor of ClusterMetadata comes to an end, and so does the reading of any partition's log,
-- if the bound on the rounds is larger than each log.
use kafka_cpp_server.Prelude.{
  ℕ, ◌<◌, ◌≡◌, ◌≢◌, refl, List, [], ◌∷◌, Option, none, some, length, arith,
}
use kafka_cpp_server.Protocol.Types.{Bytes, Int32}
use kafka_cpp_server.Protocol.Outcome.{Outcome, ok, throw, undefined, unfinished}
use kafka_cpp_server.Protocol.Stream.{Readable, bytes_readable}
use kafka_cpp_server.Protocol.Buffers.{ReadableBuffer, new_readable_buffer, buffer_readable}
use kafka_cpp_server.Protocol.Simulation.{IsStream}
use kafka_cpp_server.Protocol.Streams.{InBounds, unread, buffer-IsStream}
use kafka_cpp_server.Protocol.Progress.{Ends, end_rules, Refines-end}
use kafka_cpp_server.Protocol.ReaderEnds.{Ends-int8, Ends-int32, Ends-compact_string, Ends-uuid}
use kafka_cpp_server.Metadata.Records.{Record, RecordBatch}
use kafka_cpp_server.Metadata.Log.{Files, codes, read_opened, read_record_batches}
use kafka_cpp_server.Metadata.LogEnds.{read_batches_loop-ends}
use kafka_cpp_server.Metadata.Cluster.{
  ClusterMetadata, empty_metadata, read_topic_record, read_partition_record, read_typed_record,
  read_metadata_record, load_records, load_batches, load_cluster, keep_made, get_instance,
}
use kafka_cpp_server.Metadata.Events.{Simulates-metadata_record}

-- The outcome is not that of a loop without fuel.
abbrev pub Finished : {A : Type 0} → Outcome A → Type 0
Finished unfinished = ⊥
Finished _ = Unit

pub outcome-Finished : {A : Type 0} (o : Outcome A) → o ≢ unfinished → Finished o
outcome-Finished (ok a) h = tt
outcome-Finished (throw e) h = tt
outcome-Finished undefined h = tt
outcome-Finished unfinished h = absurd (h refl)

pub not_unfinished : {A : Type 0} (o : Outcome A) → Finished o → o ≢ unfinished
not_unfinished (ok a) h = λ q. cc
not_unfinished (throw e) h = λ q. cc
not_unfinished undefined h = λ q. cc
not_unfinished unfinished h = absurd h

Ends-metadata_record : (cluster : ClusterMetadata) → Ends 0 (read_metadata_record cluster)
unfolding read_metadata_record read_typed_record read_topic_record read_partition_record
Ends-metadata_record cluster =
    search (end_rules, Ends-int8, Ends-int32, Ends-compact_string, Ends-uuid) depth 30

metadata_record-ends :
    (cluster : ClusterMetadata) (value : Bytes)
    → Finished (read_metadata_record cluster (new_readable_buffer value))
metadata_record-ends cluster value = outcome-Finished _ (
    Refines-end InBounds unread 0 value _ _
      ((Simulates-metadata_record InBounds unread buffer-IsStream cluster).at
        (new_readable_buffer value) (omega arith))
      ((Ends-metadata_record cluster).at value))

load_records-ends :
    (records : List Record) (cluster : ClusterMetadata) → Finished (load_records records cluster)
unfolding load_records
load_records-ends [] cluster = tt
load_records-ends (object ∷ rest) cluster =
    go (read_metadata_record cluster (new_readable_buffer object.value)) refl
      (metadata_record-ends cluster object.value) (load_records-ends rest)
  where
    go :
        (o : Outcome (ClusterMetadata × ReadableBuffer))
        → read_metadata_record cluster (new_readable_buffer object.value) ≡ o
        → Finished o
        → ((next : ClusterMetadata) → Finished (load_records rest next))
        → Finished (load_records (object ∷ rest) cluster)
    go (ok p) e h later = rw (load_records, e) (later p.0)
    go (throw x) e h later = rw (load_records, e) tt
    go undefined e h later = rw (load_records, e) tt
    go unfinished e h later = absurd h

load_batches-ends :
    (batches : List RecordBatch) (cluster : ClusterMetadata)
    → Finished (load_batches batches cluster)
unfolding load_batches
load_batches-ends [] cluster = tt
load_batches-ends (batch ∷ rest) cluster =
    go (load_records batch.records cluster) refl (load_records-ends batch.records cluster)
      (load_batches-ends rest)
  where
    go :
        (o : Outcome ClusterMetadata)
        → load_records batch.records cluster ≡ o
        → Finished o
        → ((next : ClusterMetadata) → Finished (load_batches rest next))
        → Finished (load_batches (batch ∷ rest) cluster)
    go (ok next) e h later = rw (load_batches, e) (later next)
    go (throw x) e h later = rw (load_batches, e) tt
    go undefined e h later = rw (load_batches, e) tt
    go unfinished e h later = absurd h

-- Every file that can be opened behaves as its bytes, of which there are fewer than `fuel`.
pub record LogsFit {F : Type 0} ⦃r : Readable F⦄ (files : Files F) (fuel : ℕ) (valid : F → Type 0)
    (view : F → Bytes) : Type 0 where
  pub stream : IsStream valid view
  pub opens_valid : (path : Bytes) (f : F) → files.open_file path ≡ some f → valid f
  pub fits : (path : Bytes) (f : F) → files.open_file path ≡ some f → length (view f) < fuel

module _ {F : Type 0} ⦃r : Readable F⦄ (files : Files F) (fuel : ℕ) (valid : F → Type 0)
    (view : F → Bytes) (logs : LogsFit files fuel valid view) where
  opened-ends :
      (path : Bytes) (o : Option F) → files.open_file path ≡ o → Finished (read_opened fuel o)
  unfolding read_opened
  opened-ends path none e = tt
  opened-ends path (some f) e =
      outcome-Finished _
        (read_batches_loop-ends valid view f fuel fuel [] logs.stream (logs.opens_valid path f e)
          (logs.fits path f e) (logs.fits path f e)).0

  pub read_record_batches-ends :
      (topic_name : Bytes) (partition_index : Int32)
      → Finished (read_record_batches files fuel topic_name partition_index)
  unfolding read_record_batches
  read_record_batches-ends topic_name partition_index = opened-ends _ _ refl

  load_cluster-ends : Finished (load_cluster files fuel)
  unfolding load_cluster
  load_cluster-ends =
      go (read_record_batches files fuel (codes "__cluster_metadata") 0) refl
        (read_record_batches-ends (codes "__cluster_metadata") 0)
    where
      go :
          (o : Outcome (List RecordBatch))
          → read_record_batches files fuel (codes "__cluster_metadata") 0 ≡ o
          → Finished o
          → Finished (load_cluster files fuel)
      go (ok batches) e h = rw (load_cluster, e) (load_batches-ends batches empty_metadata)
      go (throw x) e h = rw (load_cluster, e) tt
      go undefined e h = rw (load_cluster, e) tt
      go unfinished e h = absurd h

  pub get_instance-ends : (i : Option ClusterMetadata) → Finished (get_instance files fuel i)
  unfolding get_instance
  get_instance-ends (some cluster) = tt
  get_instance-ends none = kept (load_cluster files fuel) load_cluster-ends
    where
      kept : (o : Outcome ClusterMetadata) → Finished o → Finished (keep_made o)
      kept (ok cluster) h = tt
      kept (throw e) h = tt
      kept undefined h = tt
      kept unfinished h = absurd h
