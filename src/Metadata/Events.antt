-- ===== src/Metadata/Events.antt =====
-- What the constructor of ClusterMetadata makes of a metadata log: each record is an event, and the
-- maps are what the events make of empty ones, one after the other.
use kafka_cpp_server.Prelude.{
  ℕ, ◌-◌, ◌<◌, ◌^◌, ◌≡◌, ◌≢◌, refl, sym, ◌∙◌, List, [], ◌∷◌, ◌++◌, length, ◌$◌, ◌==◌, ne→==, arith,
}
use kafka_cpp_server.Protocol.Types.{Bytes, Int32, Uuid}
use kafka_cpp_server.Protocol.Outcome.{Outcome, Io, ok, throw, undefined, unfinished, ◌>>◌, pure}
use kafka_cpp_server.Protocol.Stream.{Readable, bytes_readable, bytes_writable}
use kafka_cpp_server.Protocol.Buffers.{ReadableBuffer, new_readable_buffer, buffer_readable}
use kafka_cpp_server.Protocol.Writing.{
  write_int8, write_int32, write_compact_nullable_string, write_uuid,
}
use kafka_cpp_server.Protocol.Simulation.{
  Refines, Simulates, IsStream, Simulates-bind, Simulates-pure, Simulates-if,
}
use kafka_cpp_server.Protocol.Streams.{InBounds, unread, buffer-IsStream}
use kafka_cpp_server.Protocol.Readers.{
  Simulates-int8, Simulates-int32, Simulates-compact_string, Simulates-uuid,
}
use kafka_cpp_server.Protocol.RoundTrip.{RoundTrip, RoundTrip-bind, RoundTrip-last, RoundTrip-pure}
use kafka_cpp_server.Protocol.Integers.{RoundTrip-int8, RoundTrip-int32}
use kafka_cpp_server.Protocol.Sequences.{RoundTrip-compact_string, RoundTrip-uuid}
use kafka_cpp_server.Metadata.Records.{Record, RecordBatch}
use kafka_cpp_server.Metadata.Cluster.{
  ClusterMetadata, add_topic, add_partition, read_topic_record, read_partition_record,
  read_typed_record, read_metadata_record, load_records, load_batches,
}

-- A topic with its id, a partition of a topic, or a record of another type.
pub data Event : Type 0 where
  topic_created : Bytes → Uuid → Event
  partition_created : Int32 → Uuid → Event
  other_type : ℕ → Event

abbrev pub apply : Event → ClusterMetadata → ClusterMetadata
apply (topic_created name id) cluster = add_topic name id cluster
apply (partition_created index id) cluster = add_partition id index cluster
apply (other_type type) cluster = cluster

abbrev pub apply_all : List Event → ClusterMetadata → ClusterMetadata
apply_all [] cluster = cluster
apply_all (e ∷ es) cluster = apply_all es (apply e cluster)

abbrev pub IsEvent : Event → Type 0
IsEvent (topic_created name id) = (length name < 2 ^ 32 - 1) × (length id ≡ 16)
IsEvent (partition_created index id) = (index < 2 ^ 32) × (length id ≡ 16)
IsEvent (other_type type) = (type < 2 ^ 8) × (type ≢ 2) × (type ≢ 3)

-- The encoding of an event behind its frame version and before its version.
abbrev pub event_type : Event → ℕ
event_type (topic_created name id) = 2
event_type (partition_created index id) = 3
event_type (other_type type) = type

abbrev pub write_fields : Event → Io Bytes (Unit {0})
write_fields (topic_created name id) = write_compact_nullable_string name >> write_uuid id
write_fields (partition_created index id) = write_int32 index >> write_uuid id
write_fields (other_type type) = pure tt

abbrev pub write_event : ℕ → ℕ → Event → Io Bytes (Unit {0})
write_event frame_version version e =
    write_int8 frame_version
    >> (write_int8 (event_type e) >> (write_int8 version >> write_fields e))

RoundTrip-fields :
    (e : Event) (cluster : ClusterMetadata)
    → IsEvent e
    → RoundTrip (read_typed_record (event_type e) cluster) (write_fields e) (apply e cluster)
unfolding read_typed_record read_topic_record read_partition_record
RoundTrip-fields (topic_created name id) cluster (h, k) =
    RoundTrip-bind _ (RoundTrip-compact_string name h) (RoundTrip-last _ (RoundTrip-uuid id k))
RoundTrip-fields (partition_created index id) cluster (h, k) =
    RoundTrip-bind _ (RoundTrip-int32 index h) (RoundTrip-last _ (RoundTrip-uuid id k))
RoundTrip-fields (other_type type) cluster (h, k, l) =
    rw (ne→== type 2 k, ne→== type 3 l) (RoundTrip-pure cluster)

event_type_fits : (e : Event) → IsEvent e → event_type e < 2 ^ 8
event_type_fits (topic_created name id) h = omega arith
event_type_fits (partition_created index id) h = omega arith
event_type_fits (other_type type) (h, _, _) = h

RoundTrip-event :
    (frame_version version : ℕ) (e : Event) (cluster : ClusterMetadata)
    → frame_version < 2 ^ 8
    → version < 2 ^ 8
    → IsEvent e
    → RoundTrip
        (read_metadata_record cluster)
        (write_event frame_version version e)
        (apply e cluster)
unfolding read_metadata_record
RoundTrip-event frame_version version e cluster h k l =
    RoundTrip-bind _ (RoundTrip-int8 frame_version h)
    $ RoundTrip-bind _ (RoundTrip-int8 (event_type e) (event_type_fits e l))
    $ RoundTrip-bind _ (RoundTrip-int8 version k)
    $ RoundTrip-fields e cluster l

module _ {S : Type 0} ⦃r : Readable S⦄ (valid : S → Type 0) (view : S → Bytes)
    (stream : IsStream valid view) where
  pub Simulates-metadata_record :
      (cluster : ClusterMetadata)
      → Simulates valid view (read_metadata_record cluster) (read_metadata_record cluster)
  unfolding read_metadata_record read_typed_record read_topic_record read_partition_record
  Simulates-metadata_record cluster =
      Simulates-bind _ _ _ _ (Simulates-int8 valid view stream) $ λ _.
      Simulates-bind _ _ _ _ (Simulates-int8 valid view stream) $ λ type.
      Simulates-bind _ _ _ _ (Simulates-int8 valid view stream) $ λ _.
      Simulates-if (type == 2) _ _ _ _
        (Simulates-bind _ _ _ _ (Simulates-compact_string valid view stream) $ λ _.
          Simulates-bind _ _ _ _ (Simulates-uuid valid view stream) $ λ _. Simulates-pure _)
        (Simulates-if (type == 3) _ _ _ _
          (Simulates-bind _ _ _ _ (Simulates-int32 valid view stream) $ λ _.
            Simulates-bind _ _ _ _ (Simulates-uuid valid view stream) $ λ _. Simulates-pure _)
          (Simulates-pure cluster))

-- The value of a record is an event as `write_event` writes it, and perhaps more behind it.
pub record Carries (object : Record) (e : Event) : Type 0 where
  pub frame_version : ℕ
  pub version : ℕ
  pub written : Bytes
  pub more : Bytes
  pub frame_version_fits : frame_version < 2 ^ 8
  pub version_fits : version < 2 ^ 8
  pub event_fits : IsEvent e
  pub writes : write_event frame_version version e [] ≡ ok (tt, written)
  pub value_is : object.value ≡ written ++ more

abbrev pub CarryAll : List Record → List Event → Type 0
CarryAll [] [] = Unit
CarryAll (object ∷ objects) (e ∷ es) = Carries object e × CarryAll objects es
CarryAll _ _ = ⊥

from_Refines :
    {S A : Type 0} (valid : S → Type 0) (view : S → Bytes) (o : Outcome (A × S))
    (p : Outcome (A × Bytes)) {a : A} (t : Bytes)
    → Refines valid view o p
    → p ≡ ok (a, t)
    → (s : S) × (o ≡ ok (a, s))
from_Refines valid view (ok (b, s)) (ok (c, u)) t (e, _, _) h = (s, cc)
from_Refines valid view (throw x) (throw y) t r h = cc
from_Refines valid view undefined undefined t r h = cc
from_Refines valid view unfinished unfinished t r h = cc
from_Refines valid view _ _ t r h = absurd r

-- The record is read as its event.
carried_value :
    (object : Record) (e : Event) (cluster : ClusterMetadata)
    → Carries object e
    → (t : Bytes) × (read_metadata_record cluster object.value ≡ ok (apply e cluster, t))
carried_value object e cluster c =
    let trip =
      RoundTrip-event c.frame_version c.version e cluster c.frame_version_fits c.version_fits
        c.event_fits in
    let same : c.written ≡ trip.wire = ok-injective (sym c.writes ∙ trip.writes []) in
    (c.more, rw (c.value_is, same, trip.reads c.more))
  where
    ok-injective :
        {u v : Bytes} → ◌≡◌ {A = Outcome (Unit {0} × Bytes)} (ok (tt, u)) (ok (tt, v)) → u ≡ v
    ok-injective h = cc

carried_record :
    (object : Record) (e : Event) (cluster : ClusterMetadata)
    → Carries object e
    → (s : ReadableBuffer) × (read_metadata_record cluster (new_readable_buffer object.value)
        ≡ ok (apply e cluster, s))
carried_record object e cluster c =
    let (t, h) = carried_value object e cluster c in
    from_Refines InBounds unread _ _ t
      ((Simulates-metadata_record InBounds unread buffer-IsStream cluster).at
        (new_readable_buffer object.value) (omega arith))
      h

load_records-apply_all :
    (objects : List Record) (es : List Event) (cluster : ClusterMetadata)
    → CarryAll objects es
    → load_records objects cluster ≡ ok (apply_all es cluster)
unfolding load_records
load_records-apply_all [] [] cluster h = refl
load_records-apply_all (object ∷ objects) (e ∷ es) cluster (c, h) =
    let (s, k) = carried_record object e cluster c in
    rw (load_records, k, load_records-apply_all objects es (apply e cluster) h)
load_records-apply_all _ _ cluster h = absurd h

-- The batches of a log and the events that their records carry.
abbrev pub BatchesCarry : List RecordBatch → List (List Event) → Type 0
BatchesCarry [] [] = Unit
BatchesCarry (b ∷ bs) (es ∷ more) = CarryAll b.records es × BatchesCarry bs more
BatchesCarry _ _ = ⊥

abbrev pub apply_batches : List (List Event) → ClusterMetadata → ClusterMetadata
apply_batches [] cluster = cluster
apply_batches (es ∷ more) cluster = apply_batches more (apply_all es cluster)

-- If each record of the batches carries an event, then loading them returns, and the maps are what
-- the events make of those before, in the log's order.
pub load_batches-apply_batches :
    (batches : List RecordBatch) (events : List (List Event)) (cluster : ClusterMetadata)
    → BatchesCarry batches events
    → load_batches batches cluster ≡ ok (apply_batches events cluster)
unfolding load_batches
load_batches-apply_batches [] [] cluster h = refl
load_batches-apply_batches (b ∷ bs) (es ∷ more) cluster (c, h) = rw (
  load_batches,
  load_records-apply_all b.records es cluster c,
  load_batches-apply_batches bs more (apply_all es cluster) h,
)
load_batches-apply_batches _ _ cluster h = absurd h
