-- ===== src/Server/DescribeRanges.antt =====
-- `handle_describe_topic_partitions`: the fields of its response are in their ranges.
use kafka_cpp_server.Prelude.{
  ℕ, suc, ◌-◌, ◌^◌, ◌<◌, ◌≡◌, refl, ap, List, [], ◌∷◌, Option, none, some, length, All, ◌$◌, arith,
}
use mathlib.Core.Path.{subst}
use kafka_cpp_server.Protocol.Types.{Bytes, Int32, Uuid, nil_uuid}
use kafka_cpp_server.Protocol.Constants.{ErrorCode, no_error, unknown_topic_or_partition}
use kafka_cpp_server.Protocol.Outcome.{ok}
use kafka_cpp_server.Protocol.Stream.{Readable}
use kafka_cpp_server.Metadata.Maps.{find}
use kafka_cpp_server.Metadata.Cluster.{ClusterMetadata, get_topic_id, get_partition_ids, found}
use kafka_cpp_server.Metadata.ClusterValues.{
  IsCluster, IsUuid, load_cluster-IsCluster, Values, Valid, find-Values,
}
use kafka_cpp_server.Message.DescribeTopicPartitions.{
  TopicRequest, DescribeTopicPartitionsRequest, ResponsePartition, ResponseTopic,
}
use kafka_cpp_server.Message.Requests.{IsName, IsTopicRequest, IsDescribeTopicPartitionsRequest}
use kafka_cpp_server.Message.ResponseValues.{
  IsDescribeTopicPartitionsResponse, IsResponsePartition, IsResponseTopic,
}
use kafka_cpp_server.Server.Handlers.{
  ReplicaStorage, TopicStorage, Storage, Environment, new_response_partition, new_response_topic,
  make_response_topic, make_response_topics, respond_describe_topic_partitions, describe_partitions,
  describe_topic,
}
use kafka_cpp_server.Protocol.Yields.{Fits}
use kafka_cpp_server.Server.Ranges.{IsReplicaStorage, IsTopicStorage, IsStorage, IsBroker}
use kafka_cpp_server.Protocol.Gives.{Gives, Gives-pure, Gives-bind, Gives-map, Gives-from_outcome}
use kafka_cpp_server.Server.Instance.{IsInstance, Gives-get_instance}

-- The ids are those of the metadata.
describe_partitions-valid :
    (storage : ℕ → ReplicaStorage) (ids : List Int32)
    → ((j : ℕ) → IsReplicaStorage (storage j))
    → All (Fits 32) ids
    → (length (describe_partitions storage ids) ≡ length ids)
      × All IsResponsePartition (describe_partitions storage ids)
unfolding describe_partitions new_response_partition
describe_partitions-valid storage [] s h = (refl, tt)
describe_partitions-valid storage (id ∷ ids) s (p, h) =
    let (count, all) = describe_partitions-valid (λ j. storage (suc j)) ids (λ j. s (suc j)) h in
    (ap suc count, (partition (s 0), all))
  where
    partition :
        IsReplicaStorage (storage 0)
        → IsResponsePartition (new_response_partition (storage 0) no_error id)
    partition (leader, epoch) = record {
      error_code_fits = omega arith;
      partition_index_fits = p;
      leader_id_fits = leader;
      leader_epoch_fits = epoch;
      replica_nodes_fit = (omega arith, tt);
      isr_nodes_fit = (omega arith, tt);
      eligible_leader_replicas_fit = (omega arith, tt);
      last_known_elr_fit = (omega arith, tt);
      offline_replicas_fit = (omega arith, tt);
    }

-- No topic has too many partitions to count.
abbrev pub IsCountable : ClusterMetadata → Type 0
IsCountable cluster = Values (λ (l : List Int32). length l < 2 ^ 32 - 1) cluster.partition_ids

module _ (storage : TopicStorage) (fit : IsTopicStorage storage) where
  new_response_topic-IsResponseTopic :
      (code : ErrorCode) (name : Bytes) (id : Uuid) (partitions : List ResponsePartition)
      → code < 2 ^ 16
      → IsName name
      → IsUuid id
      → length partitions < 2 ^ 32 - 1
      → All IsResponsePartition partitions
      → IsResponseTopic (new_response_topic storage code name id partitions)
  unfolding new_response_topic
  new_response_topic-IsResponseTopic code name id partitions c n h k all = record {
    error_code_fits = c;
    name_fits = n;
    topic_id_fits = h;
    partitions_fit = k;
    partitions_valid = all;
    topic_authorized_operations_fit = fit.topic_authorized_operations_fit;
  }

  module _ (name : Bytes) (named : IsName name) (cluster : ClusterMetadata) (v : IsCluster cluster)
      (few : IsCountable cluster) where
    known-Valid :
        (id : Uuid) (o : Option (List Int32))
        → IsUuid id
        → find id cluster.partition_ids ≡ o
        → Valid IsResponseTopic (describe_topic storage name cluster (ok id))
    unfolding describe_topic get_partition_ids found
    known-Valid id none h e = rw (describe_topic, get_partition_ids, e) tt
    known-Valid id (some ids) h e =
        let fits = find-Values (All (Fits 32)) id cluster.partition_ids ids v.partitions_valid e in
        let count =
          find-Values (λ (l : List Int32). length l < 2 ^ 32 - 1) id cluster.partition_ids ids few
            e in
        let (same, all) = describe_partitions-valid storage.replicas ids fit.replicas_fit fits in
        rw (describe_topic, get_partition_ids, e)
          (new_response_topic-IsResponseTopic no_error name id _ (omega arith) named h
            (omega (arith, same)) all)

    describe_topic-Valid :
        (o : Option Uuid)
        → find name cluster.topic_ids ≡ o
        → Valid IsResponseTopic (describe_topic storage name cluster (get_topic_id cluster name))
    unfolding get_topic_id found describe_topic
    describe_topic-Valid none e =
        rw (get_topic_id, e)
          (new_response_topic-IsResponseTopic unknown_topic_or_partition name nil_uuid []
            (omega arith) named refl (omega arith) tt)
    describe_topic-Valid (some id) e =
        rw (get_topic_id, e)
          (known-Valid id (find id cluster.partition_ids)
            (find-Values IsUuid name cluster.topic_ids id v.ids_valid e) refl)

module _ {F : Type 0} ⦃f : Readable F⦄ (env : Environment F) (valid : F → Type 0) (view : F → Bytes)
    (broker : IsBroker env valid view) where
  Gives-IsResponseTopic :
      (storage : TopicStorage) (q : TopicRequest)
      → IsTopicStorage storage
      → IsTopicRequest q
      → Gives (IsInstance env) IsResponseTopic (make_response_topic env storage q)
  unfolding make_response_topic
  Gives-IsResponseTopic storage q s h =
      Gives-bind _ IsResponseTopic _ _ (Gives-get_instance env) $ λ cluster e.
      Gives-from_outcome IsResponseTopic _ (λ t made. subst (Valid IsResponseTopic) made (
        describe_topic-Valid storage s q.name h cluster
          (load_cluster-IsCluster env.files env.fuel valid view cluster broker.logs broker.of_bytes
            e)
          (broker.few_partitions cluster e) _ refl))

  abbrev AreTopics : ℕ → List ResponseTopic → Type 0
  AreTopics n ts = (length ts ≡ n) × All IsResponseTopic ts

  Gives-response_topics :
      (storage : ℕ → TopicStorage) (qs : List TopicRequest)
      → ((i : ℕ) → IsTopicStorage (storage i))
      → All IsTopicRequest qs
      → Gives (IsInstance env) (AreTopics (length qs)) (make_response_topics env storage qs)
  unfolding make_response_topics
  Gives-response_topics storage [] s h = Gives-pure _ [] (refl, tt)
  Gives-response_topics storage (q ∷ qs) s (p, h) =
      Gives-bind IsResponseTopic _ _ _ (Gives-IsResponseTopic (storage 0) q (s 0) p) $ λ t k.
      Gives-map (AreTopics (length qs)) _ _ _
        (Gives-response_topics (λ i. storage (suc i)) qs (λ i. s (suc i)) h)
        (λ ts (count, all). (omega arith, (k, all)))

  pub Gives-respond_describe_topic_partitions :
      (storage : Storage) (q : DescribeTopicPartitionsRequest)
      → IsStorage storage
      → IsDescribeTopicPartitionsRequest q
      → Gives
          (IsInstance env)
          IsDescribeTopicPartitionsResponse
          (respond_describe_topic_partitions env storage (some q))
  unfolding respond_describe_topic_partitions
  Gives-respond_describe_topic_partitions storage q s (few, h, _) =
      Gives-map (AreTopics (length q.topics)) IsDescribeTopicPartitionsResponse _ _
        (Gives-response_topics storage.described q.topics s.described_fit h)
        (λ ts (count, all). record {
          throttle_time_ms_fits = omega arith;
          topics_fit = omega arith;
          topics_valid = all;
        })
