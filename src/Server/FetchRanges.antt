-- ===== src/Server/FetchRanges.antt =====
-- `handle_fetch`: the fields of its response are in their ranges.
use kafka_cpp_server.Prelude.{
  ℕ, suc, ◌+◌, ◌-◌, ◌^◌, ◌≤◌, ◌<◌, ◌≡◌, refl, List, [], ◌∷◌, some, length, length-append, All,
  All-map, All-append, ◌$◌, arith,
}
use mathlib.Core.Path.{subst}
use kafka_cpp_server.Protocol.Types.{Bytes, Int32}
use kafka_cpp_server.Protocol.Constants.{ErrorCode, no_error, unknown_topic_id}
use kafka_cpp_server.Protocol.Outcome.{Outcome, ok, throw, undefined, unfinished}
use kafka_cpp_server.Protocol.Stream.{Readable}
use kafka_cpp_server.Metadata.Records.{RecordBatch}
use kafka_cpp_server.Metadata.RecordsRoundTrip.{IsRecordBatch}
use kafka_cpp_server.Metadata.Log.{read_record_batches}
use kafka_cpp_server.Metadata.Yields.{read_record_batches-AreBatches}
use kafka_cpp_server.Metadata.Cluster.{ClusterMetadata, get_topic_name}
use kafka_cpp_server.Metadata.ClusterValues.{Valid}
use kafka_cpp_server.Message.Fetch.{
  FetchTopic, FetchableTopicResponse, FetchRequest, FetchPartition, PartitionData,
}
use kafka_cpp_server.Message.Requests.{IsFetchTopic, IsFetchRequest, IsFetchPartition}
use kafka_cpp_server.Message.ResponseValues.{
  IsPartitionData, IsFetchableTopicResponse, IsFetchResponse,
}
use kafka_cpp_server.Server.Handlers.{
  PartitionStorage, Storage, Environment, new_partition_data, catch_partitions, make_partition_data,
  make_partitions, try_partitions, make_fetchable_topic_response, make_fetchable_topic_responses,
  respond_fetch,
}
use kafka_cpp_server.Server.Ranges.{IsPartitionStorage, IsStorage, IsBroker}
use kafka_cpp_server.Protocol.Gives.{Gives, Gives-pure, Gives-bind, Gives-map, Gives-from_outcome}
use kafka_cpp_server.Server.Instance.{IsInstance, Gives-get_instance}

new_partition_data-IsPartitionData :
    (storage : PartitionStorage) (index : Int32) (code : ErrorCode) (most : ℕ)
    (batches : List RecordBatch)
    → IsPartitionStorage storage
    → index < 2 ^ 32
    → code < 2 ^ 16
    → most < 2 ^ 32 - 1
    → length batches ≤ most
    → All IsRecordBatch batches
    → IsPartitionData (new_partition_data storage index code batches)
unfolding new_partition_data
new_partition_data-IsPartitionData storage index code most batches s h c m count valid = record {
  partition_index_fits = h;
  error_code_fits = c;
  high_watermark_fits = s.high_watermark_fits;
  last_stable_offset_fits = s.last_stable_offset_fits;
  log_start_offset_fits = s.log_start_offset_fits;
  aborted_fit = omega arith;
  aborted_valid = tt;
  preferred_read_replica_fits = s.preferred_read_replica_fits;
  records_fit = omega arith;
  records_valid = valid;
}

-- The entries pushed, and the one of a failure, are at most so many.
abbrev Pushed : ℕ → List PartitionData × Outcome (Unit {0}) → Type 0
Pushed n (pushed, throw e) = (length pushed + 1 ≤ n) × All IsPartitionData pushed
Pushed n (pushed, _) = (length pushed ≤ n) × All IsPartitionData pushed

Pushed-cons :
    (n : ℕ) (d : PartitionData) (r : List PartitionData × Outcome (Unit {0}))
    → IsPartitionData d
    → Pushed n r
    → Pushed (suc n) (d ∷ r.0, r.1)
Pushed-cons n d (pushed, ok _) p (h, all) = (omega arith, (p, all))
Pushed-cons n d (pushed, throw e) p (h, all) = (omega arith, (p, all))
Pushed-cons n d (pushed, undefined) p (h, all) = (omega arith, (p, all))
Pushed-cons n d (pushed, unfinished) p (h, all) = (omega arith, (p, all))

Pushed-more :
    (n m : ℕ) (r : List PartitionData × Outcome (Unit {0})) → n ≤ m → Pushed n r → Pushed m r
Pushed-more n m (pushed, ok _) h (k, all) = (omega arith, all)
Pushed-more n m (pushed, throw e) h (k, all) = (omega arith, all)
Pushed-more n m (pushed, undefined) h (k, all) = (omega arith, all)
Pushed-more n m (pushed, unfinished) h (k, all) = (omega arith, all)

-- The entries of a topic.
abbrev pub ArePartitions : ℕ → List PartitionData → Type 0
ArePartitions n ds = (length ds ≤ n) × All IsPartitionData ds

module _ (storage : ℕ → PartitionStorage) (fit : (j : ℕ) → IsPartitionStorage (storage j)) where
  catch-ArePartitions :
      (n : ℕ) (r : List PartitionData × Outcome (Unit {0}))
      → Pushed n r
      → Valid (ArePartitions n) (catch_partitions storage r)
  unfolding catch_partitions
  catch-ArePartitions n (pushed, ok _) h = h
  catch-ArePartitions n (pushed, throw e) (h, all) = (
    omega (
      arith,
      length-append pushed
          (new_partition_data (storage (length pushed)) 0 unknown_topic_id [] ∷ []),
    ),
    All-append IsPartitionData pushed _ all (
      new_partition_data-IsPartitionData (storage (length pushed)) 0 unknown_topic_id 0 []
          (fit (length pushed)) (omega arith) (omega arith) (omega arith) (omega arith) tt,
      tt,
    ),
  )
  catch-ArePartitions n (pushed, undefined) h = tt
  catch-ArePartitions n (pushed, unfinished) h = tt

module _ {F : Type 0} ⦃f : Readable F⦄ (env : Environment F) (valid : F → Type 0) (view : F → Bytes)
    (broker : IsBroker env valid view) where
  make_partition_data-Valid :
      (storage : PartitionStorage) (name : Bytes) (index : Int32)
      → IsPartitionStorage storage
      → index < 2 ^ 32
      → Valid IsPartitionData (make_partition_data env storage name index)
  unfolding make_partition_data
  make_partition_data-Valid storage name index s h =
      go (read_record_batches env.files env.fuel name index) refl
    where
      go :
          (o : Outcome (List RecordBatch))
          → read_record_batches env.files env.fuel name index ≡ o
          → Valid IsPartitionData (make_partition_data env storage name index)
      go (ok batches) e =
          let (count, all) =
            read_record_batches-AreBatches env.files env.fuel valid view broker.logs broker.of_bytes
              name index batches e in
          rw (make_partition_data, e)
            (new_partition_data-IsPartitionData storage index no_error env.fuel batches s h
              (omega arith) broker.fuel_fits count (All-map (λ b p. p.0) batches all))
      go (throw x) e = rw (make_partition_data, e) tt
      go undefined e = rw (make_partition_data, e) tt
      go unfinished e = rw (make_partition_data, e) tt

  make_partitions-Pushed :
      (storage : ℕ → PartitionStorage) (name : Bytes) (ps : List FetchPartition)
      → ((j : ℕ) → IsPartitionStorage (storage j))
      → All IsFetchPartition ps
      → Pushed (length ps) (make_partitions env storage name ps)
  unfolding make_partitions
  make_partitions-Pushed storage name [] s h = (omega arith, tt)
  make_partitions-Pushed storage name (p ∷ ps) s (h, hs) =
      go (make_partition_data env (storage 0) name p.partition) refl
        (make_partition_data-Valid (storage 0) name p.partition (s 0) h.partition_fits)
        (make_partitions-Pushed (λ j. storage (suc j)) name ps (λ j. s (suc j)) hs)
    where
      go :
          (o : Outcome PartitionData)
          → make_partition_data env (storage 0) name p.partition ≡ o
          → Valid IsPartitionData o
          → Pushed (length ps) (make_partitions env (λ j. storage (suc j)) name ps)
          → Pushed (suc (length ps)) (make_partitions env storage name (p ∷ ps))
      go (ok d) e good rest = rw (make_partitions, e) (Pushed-cons (length ps) d _ good rest)
      go (throw x) e good rest = rw (make_partitions, e) (omega arith, tt)
      go undefined e good rest = rw (make_partitions, e) (omega arith, tt)
      go unfinished e good rest = rw (make_partitions, e) (omega arith, tt)

  -- An unknown topic has one entry.
  try_partitions-Pushed :
      (storage : ℕ → PartitionStorage) (cluster : ClusterMetadata) (t : FetchTopic) (n : ℕ)
      → ((j : ℕ) → IsPartitionStorage (storage j))
      → All IsFetchPartition t.partitions
      → length t.partitions ≤ n
      → 1 ≤ n
      → Pushed n (try_partitions env storage cluster t)
  unfolding try_partitions
  try_partitions-Pushed storage cluster t n s h most one =
      go (get_topic_name cluster t.topic_id) refl
    where
      go :
          (o : Outcome Bytes)
          → get_topic_name cluster t.topic_id ≡ o
          → Pushed n (try_partitions env storage cluster t)
      go (ok name) e =
          rw (try_partitions, e)
            (Pushed-more (length t.partitions) n _ most
              (make_partitions-Pushed storage name t.partitions s h))
      go (throw x) e = rw (try_partitions, e) (omega arith, tt)
      go undefined e = rw (try_partitions, e) (omega arith, tt)
      go unfinished e = rw (try_partitions, e) (omega arith, tt)

  Gives-IsFetchableTopicResponse :
      (storage : ℕ → PartitionStorage) (t : FetchTopic)
      → ((j : ℕ) → IsPartitionStorage (storage j))
      → IsFetchTopic t
      → Gives
          (IsInstance env)
          IsFetchableTopicResponse
          (make_fetchable_topic_response env storage t)
  unfolding make_fetchable_topic_response
  Gives-IsFetchableTopicResponse storage t s (id, count, all) =
      Gives-bind _ IsFetchableTopicResponse _ _ (Gives-get_instance env) $ λ cluster _.
      Gives-map (ArePartitions (2 ^ 32 - 2)) IsFetchableTopicResponse _ _
        (Gives-from_outcome (ArePartitions (2 ^ 32 - 2)) _ (λ ds e.
          subst (Valid (ArePartitions (2 ^ 32 - 2))) e (
            catch-ArePartitions storage s (2 ^ 32 - 2) _ (
              try_partitions-Pushed storage cluster t (2 ^ 32 - 2) s all (omega arith)
                (omega arith)))))
        (λ ds (few, fine). record {
          topic_id_fits = id;
          partitions_fit = omega arith;
          partitions_valid = fine;
        })

  abbrev AreTopics : ℕ → List FetchableTopicResponse → Type 0
  AreTopics n rs = (length rs ≡ n) × All IsFetchableTopicResponse rs

  Gives-fetchable_topic_responses :
      (storage : ℕ → ℕ → PartitionStorage) (ts : List FetchTopic)
      → ((i j : ℕ) → IsPartitionStorage (storage i j))
      → All IsFetchTopic ts
      → Gives
          (IsInstance env)
          (AreTopics (length ts))
          (make_fetchable_topic_responses env storage ts)
  unfolding make_fetchable_topic_responses
  Gives-fetchable_topic_responses storage [] s h = Gives-pure _ [] (refl, tt)
  Gives-fetchable_topic_responses storage (t ∷ ts) s (p, h) =
      Gives-bind IsFetchableTopicResponse _ _ _
        (Gives-IsFetchableTopicResponse (storage 0) t (s 0) p)
      $ λ r q.
          Gives-map (AreTopics (length ts)) _ _ _
            (Gives-fetchable_topic_responses (λ i. storage (suc i)) ts (λ i. s (suc i)) h)
            (λ rs (count, all). (omega arith, (q, all)))

  pub Gives-respond_fetch :
      (storage : Storage) (q : FetchRequest)
      → IsStorage storage
      → IsFetchRequest q
      → Gives (IsInstance env) IsFetchResponse (respond_fetch env storage (some q))
  unfolding respond_fetch
  Gives-respond_fetch storage q s h =
      Gives-map (AreTopics (length q.topics)) IsFetchResponse _ _
        (Gives-fetchable_topic_responses storage.fetched q.topics s.fetched_fit h.topics_valid)
        (λ rs (count, all). record {
          throttle_time_ms_fits = omega arith;
          error_code_fits = omega arith;
          session_id_fits = omega arith;
          responses_fit = few_topics q.topics rs h.topics_fit count;
          responses_valid = all;
        })
    where
      few_topics :
          (ts : List FetchTopic) (rs : List FetchableTopicResponse)
          → length ts < 2 ^ 32 - 1
          → length rs ≡ length ts
          → length rs < 2 ^ 32 - 1
      few_topics ts rs h e = omega arith
