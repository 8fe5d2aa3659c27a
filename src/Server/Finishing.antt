-- ===== src/Server/Finishing.antt =====
-- The handlers come to an end, if the bound on the rounds is larger than each log: they return, throw,
-- or are undefined.
use kafka_cpp_server.Prelude.{
  ℕ, suc, ◌≡◌, refl, List, [], ◌∷◌, Option, none, some, Bool, true, false, ◌==◌, if◌then◌else◌,
}
use kafka_cpp_server.Protocol.Types.{Bytes, Int32, Uuid}
use kafka_cpp_server.Protocol.Constants
use kafka_cpp_server.Protocol.Outcome.{
  Exception, Outcome, Io, ok, throw, runtime_error, undefined, unfinished, then_run, ◌>>=◌, pure,
  undefined_behaviour, from_outcome,
}
use kafka_cpp_server.Protocol.Stream.{Readable}
use kafka_cpp_server.Protocol.FileDescriptor.{fd_readable, fd_writable}
use kafka_cpp_server.Metadata.Records.{RecordBatch}
use kafka_cpp_server.Metadata.Maps.{find}
use kafka_cpp_server.Metadata.Log.{read_record_batches}
use kafka_cpp_server.Metadata.Cluster.{
  ClusterMetadata, found, get_topic_id, get_topic_name, get_partition_ids, get_instance,
}
use kafka_cpp_server.Metadata.LoadEnds.{
  Finished, LogsFit, read_record_batches-ends, get_instance-ends,
}
use kafka_cpp_server.Message.Fetch.{FetchPartition, FetchTopic, FetchRequest, PartitionData}
use kafka_cpp_server.Message.DescribeTopicPartitions.{TopicRequest, DescribeTopicPartitionsRequest}
use kafka_cpp_server.Message.Messages.{RequestMessage}
use kafka_cpp_server.Server.Handlers.{
  PartitionStorage, TopicStorage, Storage, Environment, make_partition_data, make_partitions,
  try_partitions, catch_partitions, make_fetchable_topic_response, make_fetchable_topic_responses,
  respond_fetch, handle_fetch, describe_topic, make_response_topic, make_response_topics,
  respond_describe_topic_partitions, handle_describe_topic_partitions,
}
use kafka_cpp_server.Server.Serve.{handle}

-- Code that comes to an end from every state.
pub record Finishes {S A : Type 0} (m : Io S A) : Type 0 where
  pub finished : (s : S) → Finished (m s)

module _ {S : Type 0} where
  pub Finishes-pure : {A : Type 0} (a : A) → Finishes {S = S} (pure a)
  unfolding pure
  Finishes-pure a = record { finished = λ s. tt }

  Finishes-undefined : {A : Type 0} → Finishes {S = S} {A = A} undefined_behaviour
  unfolding undefined_behaviour
  Finishes-undefined = record { finished = λ s. tt }

  Finishes-from_outcome :
      {A : Type 0} (o : Outcome A) → Finished o → Finishes {S = S} (from_outcome o)
  unfolding from_outcome
  Finishes-from_outcome (ok a) h = record { finished = λ s. tt }
  Finishes-from_outcome (throw e) h = record { finished = λ s. tt }
  Finishes-from_outcome undefined h = record { finished = λ s. tt }
  Finishes-from_outcome unfinished h = absurd h

  then_run-Finished :
      {A B : Type 0} (f : A → Io S B) (o : Outcome (A × S))
      → ((a : A) → Finishes (f a))
      → Finished o
      → Finished (then_run f o)
  then_run-Finished f (ok (a, s)) k h = (k a).finished s
  then_run-Finished f (throw e) k h = tt
  then_run-Finished f undefined k h = tt
  then_run-Finished f unfinished k h = h

  pub Finishes-bind :
      {A B : Type 0} (m : Io S A) (f : A → Io S B)
      → Finishes m
      → ((a : A) → Finishes (f a))
      → Finishes (m >>= f)
  unfolding ◌>>=◌
  Finishes-bind m f h k = record { finished = λ s. then_run-Finished f (m s) k (h.finished s) }

  Finishes-if :
      {A : Type 0} (b : Bool) (m n : Io S A)
      → Finishes m
      → Finishes n
      → Finishes (if b then m else n)
  Finishes-if true m n h k = h
  Finishes-if false m n h k = k

-- Lookups return or throw.
found-Finished : {V : Type 0} (e : Exception) (o : Option V) → Finished (found (throw e) o)
unfolding found
found-Finished e none = tt
found-Finished e (some v) = tt

get_topic_id-ends :
    (cluster : ClusterMetadata) (name : Bytes) → Finished (get_topic_id cluster name)
unfolding get_topic_id
get_topic_id-ends cluster name =
    found-Finished (runtime_error "unknown topic name") (find name cluster.topic_ids)

get_topic_name-ends : (cluster : ClusterMetadata) (id : Uuid) → Finished (get_topic_name cluster id)
unfolding get_topic_name
get_topic_name-ends cluster id =
    found-Finished (runtime_error "unknown topic id") (find id cluster.topic_names)

get_partition_ids-ends :
    (cluster : ClusterMetadata) (id : Uuid) → Finished (get_partition_ids cluster id)
unfolding get_partition_ids
get_partition_ids-ends cluster id =
    found-Finished (runtime_error "unknown topic id") (find id cluster.partition_ids)

describe_topic-ends :
    (storage : TopicStorage) (name : Bytes) (cluster : ClusterMetadata) (o : Outcome Uuid)
    → Finished o
    → Finished (describe_topic storage name cluster o)
unfolding describe_topic
describe_topic-ends storage name cluster (ok id) h =
    go (get_partition_ids cluster id) refl (get_partition_ids-ends cluster id)
  where
    go :
        (o : Outcome (List Int32))
        → get_partition_ids cluster id ≡ o
        → Finished o
        → Finished (describe_topic storage name cluster (ok id))
    go (ok ids) e k = rw (describe_topic, e) tt
    go (throw x) e k = rw (describe_topic, e) tt
    go undefined e k = rw (describe_topic, e) tt
    go unfinished e k = absurd k
describe_topic-ends storage name cluster (throw e) h = tt
describe_topic-ends storage name cluster undefined h = tt
describe_topic-ends storage name cluster unfinished h = h

catch_partitions-ends :
    (storage : ℕ → PartitionStorage) (p : List PartitionData × Outcome (Unit {0}))
    → Finished p.1
    → Finished (catch_partitions storage p)
unfolding catch_partitions
catch_partitions-ends storage (pushed, ok x) h = tt
catch_partitions-ends storage (pushed, throw e) h = tt
catch_partitions-ends storage (pushed, undefined) h = tt
catch_partitions-ends storage (pushed, unfinished) h = h

module _ {F : Type 0} ⦃r : Readable F⦄ (env : Environment F) (valid : F → Type 0) (view : F → Bytes)
    (logs : LogsFit env.files env.fuel valid view) where
  partition_data-ends :
      (storage : PartitionStorage) (name : Bytes) (index : Int32)
      → Finished (make_partition_data env storage name index)
  unfolding make_partition_data
  partition_data-ends storage name index =
      go (read_record_batches env.files env.fuel name index) refl
        (read_record_batches-ends env.files env.fuel valid view logs name index)
    where
      go :
          (o : Outcome (List RecordBatch))
          → read_record_batches env.files env.fuel name index ≡ o
          → Finished o
          → Finished (make_partition_data env storage name index)
      go (ok ids) e k = rw (make_partition_data, e) tt
      go (throw x) e k = rw (make_partition_data, e) tt
      go undefined e k = rw (make_partition_data, e) tt
      go unfinished e k = absurd k

  partitions-end :
      (storage : ℕ → PartitionStorage) (name : Bytes) (ps : List FetchPartition)
      → Finished (make_partitions env storage name ps).1
  unfolding make_partitions
  partitions-end storage name [] = tt
  partitions-end storage name (p ∷ ps) =
      go (make_partition_data env (storage 0) name p.partition) refl
        (partition_data-ends (storage 0) name p.partition)
        (partitions-end (λ j. storage (suc j)) name ps)
    where
      go :
          (o : Outcome PartitionData)
          → make_partition_data env (storage 0) name p.partition ≡ o
          → Finished o
          → Finished (make_partitions env (λ j. storage (suc j)) name ps).1
          → Finished (make_partitions env storage name (p ∷ ps)).1
      go (ok data_made) e k more = rw (make_partitions, e) more
      go (throw x) e k more = rw (make_partitions, e) tt
      go undefined e k more = rw (make_partitions, e) tt
      go unfinished e k more = absurd k

  try-ends :
      (storage : ℕ → PartitionStorage) (cluster : ClusterMetadata) (t : FetchTopic)
      → Finished (try_partitions env storage cluster t).1
  unfolding try_partitions
  try-ends storage cluster t =
      go (get_topic_name cluster t.topic_id) refl (get_topic_name-ends cluster t.topic_id)
    where
      go :
          (o : Outcome Bytes)
          → get_topic_name cluster t.topic_id ≡ o
          → Finished o
          → Finished (try_partitions env storage cluster t).1
      go (ok name) e k = rw (try_partitions, e) (partitions-end storage name t.partitions)
      go (throw x) e k = rw (try_partitions, e) tt
      go undefined e k = rw (try_partitions, e) tt
      go unfinished e k = absurd k

  Finishes-get_instance : Finishes (get_instance env.files env.fuel)
  Finishes-get_instance = record { finished = get_instance-ends env.files env.fuel valid view logs }

  Finishes-fetch_topics :
      (storage : ℕ → ℕ → PartitionStorage) (ts : List FetchTopic)
      → Finishes (make_fetchable_topic_responses env storage ts)
  unfolding make_fetchable_topic_responses make_fetchable_topic_response
  Finishes-fetch_topics storage [] = Finishes-pure []
  Finishes-fetch_topics storage (t ∷ ts) =
      Finishes-bind _ _
        (Finishes-bind _ _ Finishes-get_instance (λ c.
          Finishes-bind _ _
            (Finishes-from_outcome _
              (catch_partitions-ends (storage 0) _ (try-ends (storage 0) c t)))
            (λ p. Finishes-pure _)))
        (λ a.
          Finishes-bind _ _ (Finishes-fetch_topics (λ i. storage (suc i)) ts)
            (λ l. Finishes-pure _))

  Finishes-describe_topics :
      (storage : ℕ → TopicStorage) (ts : List TopicRequest)
      → Finishes (make_response_topics env storage ts)
  unfolding make_response_topics make_response_topic
  Finishes-describe_topics storage [] = Finishes-pure []
  Finishes-describe_topics storage (t ∷ ts) =
      Finishes-bind _ _
        (Finishes-bind _ _ Finishes-get_instance (λ c.
          Finishes-from_outcome _
            (describe_topic-ends (storage 0) t.name c _ (get_topic_id-ends c t.name))))
        (λ a.
          Finishes-bind _ _ (Finishes-describe_topics (λ i. storage (suc i)) ts)
            (λ l. Finishes-pure _))

  Finishes-respond_fetch :
      (storage : Storage) (q : Option FetchRequest) → Finishes (respond_fetch env storage q)
  unfolding respond_fetch
  Finishes-respond_fetch storage none = Finishes-undefined
  Finishes-respond_fetch storage (some q) =
      Finishes-bind _ _ (Finishes-fetch_topics storage.fetched q.topics) (λ a. Finishes-pure _)

  Finishes-respond_describe :
      (storage : Storage) (q : Option DescribeTopicPartitionsRequest)
      → Finishes (respond_describe_topic_partitions env storage q)
  unfolding respond_describe_topic_partitions
  Finishes-respond_describe storage none = Finishes-undefined
  Finishes-respond_describe storage (some q) =
      Finishes-bind _ _ (Finishes-describe_topics storage.described q.topics) (λ a. Finishes-pure _)

  pub Finishes-handle : (storage : Storage) (m : RequestMessage) → Finishes (handle env storage m)
  unfolding handle handle_fetch handle_describe_topic_partitions
  Finishes-handle storage m =
      Finishes-if (m.header.request_api_key == Constants.fetch) _ _
        (Finishes-bind _ _ (Finishes-respond_fetch storage _) (λ a. Finishes-pure _))
        (Finishes-if (m.header.request_api_key == Constants.api_versions) _ _ (Finishes-pure _) (
          Finishes-if (m.header.request_api_key == Constants.describe_topic_partitions) _ _
            (Finishes-bind _ _ (Finishes-respond_describe storage _) (λ a. Finishes-pure _))
            Finishes-undefined))
