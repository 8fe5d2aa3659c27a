-- ===== src/Server/Fetching.antt =====
-- `handle_fetch`: what each topic of a request is answered.
use kafka_cpp_server.Prelude.{
  ℕ, suc, ◌≡◌, refl, List, [], ◌∷◌, Option, none, some, ◌⊎◌, inl, inr, All,
}
use kafka_cpp_server.Protocol.Types.{Bytes, Int32}
use kafka_cpp_server.Protocol.Constants.{no_error, unknown_topic_id}
use kafka_cpp_server.Protocol.Outcome.{
  Exception, Outcome, ok, throw, undefined, unfinished, ◌>>=◌, pure, from_outcome,
}
use kafka_cpp_server.Protocol.Stream.{Readable}
use kafka_cpp_server.Metadata.Records.{RecordBatch}
use kafka_cpp_server.Metadata.Maps.{find}
use kafka_cpp_server.Metadata.Log.{read_record_batches}
use kafka_cpp_server.Metadata.Cluster.{ClusterMetadata, get_topic_name, get_instance, found}
use kafka_cpp_server.Message.Fetch.{
  FetchPartition, FetchTopic, FetchRequest, PartitionData, FetchableTopicResponse, FetchResponse,
}
use kafka_cpp_server.Message.Messages.{RequestMessage, as_fetch_request}
use kafka_cpp_server.Server.Handlers.{
  PartitionStorage, Storage, Environment, new_partition_data, catch_partitions, make_partition_data,
  make_partitions, try_partitions, make_fetchable_topic_response, make_fetchable_topic_responses,
  respond_fetch, handle_fetch,
}

-- The entry that reports a failure.
abbrev pub IsFailure : PartitionData → Type 0
IsFailure d = (d.partition_index ≡ 0) × (d.error_code ≡ unknown_topic_id) × (d.records ≡ [])

-- The entry of a partition whose log has these batches.
abbrev pub IsData : Int32 → List RecordBatch → PartitionData → Type 0
IsData index batches d =
    (d.partition_index ≡ index) × (d.error_code ≡ no_error) × (d.records ≡ batches)

module _ {F : Type 0} ⦃r : Readable F⦄ (env : Environment F) where
  abbrev pub log_of : Bytes → FetchPartition → Outcome (List RecordBatch)
  log_of name p = read_record_batches env.files env.fuel name p.partition

  -- The log can be read, or cannot be opened.
  abbrev pub Settled : Bytes → FetchPartition → Type 0
  Settled name p =
      ((batches : List RecordBatch) × (log_of name p ≡ ok batches))
      ⊎ ((e : Exception) × (log_of name p ≡ throw e))

  -- The entries for the partitions that are asked for: each has the batches of its log, and the
  -- first whose log cannot be opened is a failure, with which the entries end.
  abbrev pub PartitionsAnswer : Bytes → List FetchPartition → List PartitionData → Type 0
  PartitionsAnswer name [] [] = Unit
  PartitionsAnswer name (p ∷ ps) (d ∷ ds) =
      ((batches : List RecordBatch) × (log_of name p ≡ ok batches)
        × IsData p.partition batches d
        × PartitionsAnswer name ps ds)
      ⊎ ((e : Exception) × (log_of name p ≡ throw e) × IsFailure d × (ds ≡ []))
  PartitionsAnswer name _ _ = ⊥

  -- The entries of a topic, by what the map of names holds for its id.
  abbrev pub FetchAnswer : Option Bytes → List FetchPartition → List PartitionData → Type 0
  FetchAnswer none ps ds = (d : PartitionData) × (ds ≡ d ∷ []) × IsFailure d
  FetchAnswer (some name) ps ds = PartitionsAnswer name ps ds

  abbrev pub AllSettled : Option Bytes → List FetchPartition → Type 0
  AllSettled none ps = Unit
  AllSettled (some name) ps = All (Settled name) ps

  make_partition_data-ok :
      (storage : PartitionStorage) (name : Bytes) (p : FetchPartition) {batches : List RecordBatch}
      → log_of name p ≡ ok batches
      → make_partition_data env storage name p.partition
        ≡ ok (new_partition_data storage p.partition no_error batches)
  unfolding make_partition_data
  make_partition_data-ok storage name p e = rw (make_partition_data, e)

  make_partition_data-throw :
      (storage : PartitionStorage) (name : Bytes) (p : FetchPartition) {e : Exception}
      → log_of name p ≡ throw e
      → make_partition_data env storage name p.partition ≡ throw e
  unfolding make_partition_data
  make_partition_data-throw storage name p e = rw (make_partition_data, e)

  -- The `catch` block behind a partition more.
  catch-cons :
      (storage : ℕ → PartitionStorage) (d : PartitionData)
      (o : List PartitionData × Outcome (Unit {0})) {ds : List PartitionData}
      → catch_partitions (λ j. storage (suc j)) o ≡ ok ds
      → catch_partitions storage (d ∷ o.0, o.1) ≡ ok (d ∷ ds)
  unfolding catch_partitions
  catch-cons storage d (pushed, ok _) h = cc
  catch-cons storage d (pushed, throw e) h = cc
  catch-cons storage d (pushed, undefined) h = cc
  catch-cons storage d (pushed, unfinished) h = cc

  make_partitions-step :
      (storage : ℕ → PartitionStorage) (name : Bytes) (p : FetchPartition)
      (ps : List FetchPartition) {d : PartitionData}
      → make_partition_data env (storage 0) name p.partition ≡ ok d
      → make_partitions env storage name (p ∷ ps) ≡ (
        d ∷ (make_partitions env (λ j. storage (suc j)) name ps).0,
        (make_partitions env (λ j. storage (suc j)) name ps).1,
      )
  unfolding make_partitions
  make_partitions-step storage name p ps h = rw (make_partitions, h)

  make_partitions-stop :
      (storage : ℕ → PartitionStorage) (name : Bytes) (p : FetchPartition)
      (ps : List FetchPartition) {e : Exception}
      → make_partition_data env (storage 0) name p.partition ≡ throw e
      → make_partitions env storage name (p ∷ ps) ≡ ([], throw e)
  unfolding make_partitions
  make_partitions-stop storage name p ps h = rw (make_partitions, h)

  make_partitions-answer :
      (storage : ℕ → PartitionStorage) (name : Bytes) (ps : List FetchPartition)
      → All (Settled name) ps
      → (ds : List PartitionData) × (catch_partitions storage (make_partitions env storage name ps)
          ≡ ok ds)
        × PartitionsAnswer name ps ds
  unfolding make_partitions catch_partitions new_partition_data
  make_partitions-answer storage name [] h = ([], refl, tt)
  make_partitions-answer storage name (p ∷ ps) (inl (batches, e), h) =
      let (ds, made, fits) = make_partitions-answer (λ j. storage (suc j)) name ps h in
      (
        new_partition_data (storage 0) p.partition no_error batches ∷ ds,
        rw (make_partitions-step storage name p ps (make_partition_data-ok (storage 0) name p e))
            (catch-cons storage _ _ made),
        inl (batches, e, (refl, refl, refl), fits),
      )
  make_partitions-answer storage name (p ∷ ps) (inr (e, k), h) = (
    new_partition_data (storage 0) 0 unknown_topic_id [] ∷ [],
    rw (make_partitions-stop storage name p ps (make_partition_data-throw (storage 0) name p k))
        refl,
    inr (e, k, (refl, refl, refl), refl),
  )

  try_partitions-answer :
      (storage : ℕ → PartitionStorage) (cluster : ClusterMetadata) (t : FetchTopic)
      (o : Option Bytes)
      → find t.topic_id cluster.topic_names ≡ o
      → AllSettled o t.partitions
      → (ds : List PartitionData) × (catch_partitions storage (try_partitions env storage cluster t)
          ≡ ok ds)
        × FetchAnswer o t.partitions ds
  unfolding try_partitions get_topic_name found catch_partitions new_partition_data
  try_partitions-answer storage cluster t none e h = (
    new_partition_data (storage 0) 0 unknown_topic_id [] ∷ [],
    rw (try_partitions, get_topic_name, e) refl,
    (_, refl, (refl, refl, refl)),
  )
  try_partitions-answer storage cluster t (some name) e h =
      let (ds, made, fits) = make_partitions-answer storage name t.partitions h in
      (ds, rw (try_partitions, get_topic_name, e) made, fits)

  make_fetchable_topic_response-answer :
      (storage : ℕ → PartitionStorage) (cluster : ClusterMetadata) (t : FetchTopic)
      → AllSettled (find t.topic_id cluster.topic_names) t.partitions
      → (answer : FetchableTopicResponse) × (make_fetchable_topic_response env storage t
            (some cluster)
          ≡ ok (answer, some cluster))
        × (answer.topic_id ≡ t.topic_id)
        × FetchAnswer (find t.topic_id cluster.topic_names) t.partitions answer.partitions
  unfolding make_fetchable_topic_response get_instance from_outcome pure ◌>>=◌
  make_fetchable_topic_response-answer storage cluster t h =
      let (ds, made, fits) = try_partitions-answer storage cluster t _ refl h in
      (record { topic_id = t.topic_id; partitions = ds }, rw made, refl, fits)

  -- Each response of the list answers the request's topic at its position.
  abbrev pub FetchAnswersAll :
      ClusterMetadata → List FetchTopic → List FetchableTopicResponse → Type 0
  FetchAnswersAll cluster [] [] = Unit
  FetchAnswersAll cluster (t ∷ ts) (a ∷ answers) =
      (a.topic_id ≡ t.topic_id)
      × FetchAnswer (find t.topic_id cluster.topic_names) t.partitions a.partitions
      × FetchAnswersAll cluster ts answers
  FetchAnswersAll cluster _ _ = ⊥

  abbrev pub TopicSettled : ClusterMetadata → FetchTopic → Type 0
  TopicSettled cluster t = AllSettled (find t.topic_id cluster.topic_names) t.partitions

  make_fetchable_topic_responses-answers :
      (storage : ℕ → ℕ → PartitionStorage) (cluster : ClusterMetadata) (ts : List FetchTopic)
      → All (TopicSettled cluster) ts
      → (answers : List FetchableTopicResponse) × (make_fetchable_topic_responses env storage ts
            (some cluster)
          ≡ ok (answers, some cluster))
        × FetchAnswersAll cluster ts answers
  unfolding make_fetchable_topic_responses pure ◌>>=◌
  make_fetchable_topic_responses-answers storage cluster [] h = ([], refl, tt)
  make_fetchable_topic_responses-answers storage cluster (t ∷ ts) (settled, h) =
      let (a, e, same, fits) = make_fetchable_topic_response-answer (storage 0) cluster t settled in
      let (answers, k, all) =
        make_fetchable_topic_responses-answers (λ i. storage (suc i)) cluster ts h in
      (a ∷ answers, rw (e, k), (same, fits, all))

  -- A Fetch request, once the cluster metadata is loaded, and if each log that it needs can be read
  -- within the fuel without undefined behaviour, or cannot be opened: the handler returns a response
  -- without an error code, which has an answer for each topic in the request's order. The answer
  -- echoes the topic's id. It has, for an id that is not known, one failure entry, else for each
  -- partition in turn an entry with all batches of its log, up to the first partition whose log
  -- cannot be opened, which a failure entry reports. The metadata stays.
  pub handle_fetch_lem :
      (storage : Storage) (cluster : ClusterMetadata) (m : RequestMessage) (request : FetchRequest)
      → as_fetch_request m.request ≡ some request
      → All (TopicSettled cluster) request.topics
      → (response : FetchResponse) × (handle_fetch env storage m (some cluster)
          ≡ ok (response, some cluster))
        × (response.error_code ≡ no_error)
        × FetchAnswersAll cluster request.topics response.responses
  unfolding handle_fetch respond_fetch pure ◌>>=◌
  handle_fetch_lem storage cluster m request h settled =
      let (answers, e, all) =
        make_fetchable_topic_responses-answers storage.fetched cluster request.topics settled in
      (
        record { throttle_time_ms = 0; error_code = no_error; session_id = 0; responses = answers },
        rw (h, e),
        refl,
        all,
      )
