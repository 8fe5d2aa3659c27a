-- ===== src/Metadata/Loaded.antt =====
-- What a loaded ClusterMetadata answers to lookups, by the events of the log alone.
use kafka_cpp_server.Prelude.{
  ◌≡◌, refl, ap, ◌∙◌, List, [], ◌∷◌, ◌++◌, Option, none, some, inl, inr, Bool-cases, if◌then◌else◌,
}
use kafka_cpp_server.Protocol.Types.{Bytes, Int32, Uuid}
use kafka_cpp_server.Protocol.Outcome.{ok, throw, runtime_error}
use kafka_cpp_server.Metadata.Records.{RecordBatch}
use kafka_cpp_server.Metadata.Maps.{Map, equivalent, find, assign}
use kafka_cpp_server.Metadata.Lookup.{find-assign}
use kafka_cpp_server.Metadata.Cluster.{
  ClusterMetadata, empty_metadata, found, items, add_topic, add_partition, get_topic_id,
  get_topic_name, get_partition_ids, load_batches,
}
use kafka_cpp_server.Metadata.Events.{
  Event, topic_created, partition_created, other_type, apply, apply_all, apply_batches,
  BatchesCarry, load_batches-apply_batches,
}

-- What an event makes of the entry of a key: the last record of a name or an id counts, and the
-- partitions of an id are collected in their order.
abbrev pub id_after : Bytes → Event → Option Uuid → Option Uuid
id_after name (topic_created n id) o = if equivalent n name then some id else o
id_after name _ o = o

abbrev pub name_after : Uuid → Event → Option Bytes → Option Bytes
name_after id (topic_created n i) o = if equivalent i id then some n else o
name_after id _ o = o

abbrev pub partitions_after : Uuid → Event → Option (List Int32) → Option (List Int32)
partitions_after id (partition_created index i) o =
    if equivalent i id then some (items o ++ index ∷ []) else o
partitions_after id _ o = o

-- The same for all events of a batch, and of a log.
abbrev pub after_all : {V : Type 0} → (Event → V → V) → List Event → V → V
after_all step [] v = v
after_all step (e ∷ es) v = after_all step es (step e v)

abbrev pub after_batches : {V : Type 0} → (Event → V → V) → List (List Event) → V → V
after_batches step [] v = v
after_batches step (es ∷ more) v = after_batches step more (after_all step es v)

push_back-find :
    (i id : Uuid) (index : Int32) (m : Map (List Int32))
    → find id (assign i (items (find i m) ++ index ∷ []) m)
      ≡ (if equivalent i id then some (items (find id m) ++ index ∷ []) else find id m)
push_back-find i id index m = elim (Bool-cases (equivalent i id)) [
  | inl e ↦
      (find-assign i id (items (find i m) ++ index ∷ []) m).0
      ∙ rw (e, (find-assign i id (items (find i m) ++ index ∷ []) m).1.0 e) refl
  | inr e ↦ (find-assign i id (items (find i m) ++ index ∷ []) m).0 ∙ rw (e) refl
]

-- An event changes the three entries as said, whatever the maps hold.
apply-entries :
    (name : Bytes) (id : Uuid) (e : Event) (c : ClusterMetadata)
    → (find name (apply e c).topic_ids ≡ id_after name e (find name c.topic_ids))
      × (find id (apply e c).topic_names ≡ name_after id e (find id c.topic_names))
      × (find id (apply e c).partition_ids ≡ partitions_after id e (find id c.partition_ids))
unfolding add_topic add_partition
apply-entries name id (topic_created n i) c =
    ((find-assign n name i c.topic_ids).0, (find-assign i id n c.topic_names).0, refl)
apply-entries name id (partition_created index i) c =
    (refl, refl, push_back-find i id index c.partition_ids)
apply-entries name id (other_type type) c = (refl, refl, refl)

module _ {V : Type 0} (entry : ClusterMetadata → V) (step : Event → V → V)
    (one : (e : Event) (c : ClusterMetadata) → entry (apply e c) ≡ step e (entry c)) where
  entry-apply_all :
      (es : List Event) (c : ClusterMetadata) → entry (apply_all es c) ≡ after_all step es (entry c)
  entry-apply_all [] c = refl
  entry-apply_all (e ∷ es) c = entry-apply_all es (apply e c) ∙ ap (after_all step es) (one e c)

  entry-apply_batches :
      (events : List (List Event)) (c : ClusterMetadata)
      → entry (apply_batches events c) ≡ after_batches step events (entry c)
  entry-apply_batches [] c = refl
  entry-apply_batches (es ∷ more) c =
      entry-apply_batches more (apply_all es c)
      ∙ ap (after_batches step more) (entry-apply_all es c)

-- If each record of the batches carries an event, then loading them into empty maps returns, and the
-- lookups of the result are settled by the events alone: a name has the id of the last record of
-- a topic with this name, an id the name of the last with this id, and an id has the partitions of
-- its records in the log's order. Without such a record a lookup throws.
pub loaded_lookups :
    (batches : List RecordBatch) (events : List (List Event)) (name : Bytes) (id : Uuid)
    → BatchesCarry batches events
    → (cluster : ClusterMetadata) × (load_batches batches empty_metadata ≡ ok cluster)
      × (get_topic_id cluster name
          ≡ found
              (throw (runtime_error "unknown topic name"))
              (after_batches (id_after name) events none))
      × (get_topic_name cluster id
          ≡ found
              (throw (runtime_error "unknown topic id"))
              (after_batches (name_after id) events none))
      × (get_partition_ids cluster id
          ≡ found
              (throw (runtime_error "unknown topic id"))
              (after_batches (partitions_after id) events none))
unfolding get_topic_id get_topic_name get_partition_ids find
loaded_lookups batches events name id h = (
  apply_batches events empty_metadata,
  load_batches-apply_batches batches events empty_metadata h,
  ap (found (throw (runtime_error "unknown topic name"))) (
      entry-apply_batches (λ c. find name c.topic_ids) (id_after name)
        (λ e c. (apply-entries name id e c).0) events empty_metadata),
  ap (found (throw (runtime_error "unknown topic id"))) (
      entry-apply_batches (λ c. find id c.topic_names) (name_after id)
        (λ e c. (apply-entries name id e c).1) events empty_metadata),
  ap (found (throw (runtime_error "unknown topic id"))) (
      entry-apply_batches (λ c. find id c.partition_ids) (partitions_after id)
        (λ e c. (apply-entries name id e c).2) events empty_metadata),
)
