-- ===== src/Server/Describing.antt =====
-- `handle_describe_topic_partitions`: what each topic of a request is answered.
use kafka_cpp_server.Prelude.{
  ℕ, suc, ◌≡◌, refl, ap, ◌∙◌, List, [], ◌∷◌, map, Option, none, some, ◌⊎◌, inl, inr,
}
use kafka_cpp_server.Protocol.Types.{Bytes, Int32, Uuid, nil_uuid}
use kafka_cpp_server.Protocol.Constants.{no_error, unknown_topic_or_partition}
use kafka_cpp_server.Protocol.Outcome.{Outcome, ok, throw, runtime_error, ◌>>=◌, pure, from_outcome}
use kafka_cpp_server.Protocol.Stream.{Readable}
use kafka_cpp_server.Metadata.Maps.{find}
use kafka_cpp_server.Metadata.Cluster.{
  ClusterMetadata, get_topic_id, get_partition_ids, get_instance, found,
}
use kafka_cpp_server.Message.DescribeTopicPartitions.{
  TopicRequest, DescribeTopicPartitionsRequest, ResponsePartition, ResponseTopic,
  DescribeTopicPartitionsResponse,
}
use kafka_cpp_server.Message.Messages.{RequestMessage, as_describe_topic_partitions_request}
use kafka_cpp_server.Server.Handlers.{
  ReplicaStorage, TopicStorage, Storage, Environment, new_response_partition, new_response_topic,
  describe_partitions, describe_topic, make_response_topic, make_response_topics,
  handle_describe_topic_partitions, respond_describe_topic_partitions,
}

-- The error codes of `n` partitions that are well.
abbrev pub all_well : {A : Type 0} → List A → List ℕ
all_well [] = []
all_well (x ∷ xs) = no_error ∷ all_well xs

abbrev pub indices : List ResponsePartition → List Int32
indices = map (λ p. p.partition_index)

abbrev pub errors : List ResponsePartition → List ℕ
errors = map (λ p. p.error_code)

indices-describe_partitions :
    (storage : ℕ → ReplicaStorage) (ids : List Int32)
    → indices (describe_partitions storage ids) ≡ ids
unfolding describe_partitions new_response_partition
indices-describe_partitions storage [] = refl
indices-describe_partitions storage (p ∷ ps) =
    ap (λ l. p ∷ l) (indices-describe_partitions (λ j. storage (suc j)) ps)

errors-describe_partitions :
    (storage : ℕ → ReplicaStorage) (ids : List Int32)
    → errors (describe_partitions storage ids) ≡ all_well ids
unfolding describe_partitions new_response_partition
errors-describe_partitions storage [] = refl
errors-describe_partitions storage (p ∷ ps) =
    ap (λ l. no_error ∷ l) (errors-describe_partitions (λ j. storage (suc j)) ps)

-- What a known topic is to be answered: its partitions, or an exception if it has none.
abbrev pub KnownAnswer : Uuid → Option (List Int32) → Bytes → Outcome ResponseTopic → Type 0
KnownAnswer id none name answer = answer ≡ throw (runtime_error "unknown topic id")
KnownAnswer id (some ids) name answer =
    (topic : ResponseTopic) × (answer ≡ ok topic)
    × (topic.error_code ≡ no_error)
    × (topic.name ≡ name)
    × (topic.topic_id ≡ id)
    × (indices topic.partitions ≡ ids)
    × (errors topic.partitions ≡ all_well ids)

-- What a topic is to be answered, by what the maps hold for its name and then for its id.
abbrev pub TopicAnswer :
    Option Uuid → (Uuid → Option (List Int32)) → Bytes → Outcome ResponseTopic → Type 0
TopicAnswer none partitions name answer =
    (topic : ResponseTopic) × (answer ≡ ok topic)
    × (topic.error_code ≡ unknown_topic_or_partition)
    × (topic.name ≡ name)
    × (topic.topic_id ≡ nil_uuid)
    × (topic.partitions ≡ [])
TopicAnswer (some id) partitions name answer = KnownAnswer id (partitions id) name answer

describe_topic-KnownAnswer :
    (storage : TopicStorage) (name : Bytes) (cluster : ClusterMetadata) (id : Uuid)
    (o : Option (List Int32))
    → find id cluster.partition_ids ≡ o
    → KnownAnswer id o name (describe_topic storage name cluster (ok id))
unfolding describe_topic get_partition_ids found
describe_topic-KnownAnswer storage name cluster id none e =
    rw (e, describe_topic, get_partition_ids)
describe_topic-KnownAnswer storage name cluster id (some ids) e =
    unfold new_response_topic in
    (
      new_response_topic storage no_error name id (describe_partitions storage.replicas ids),
      rw (e, describe_topic, get_partition_ids),
      refl,
      refl,
      refl,
      indices-describe_partitions storage.replicas ids,
      errors-describe_partitions storage.replicas ids,
    )

describe_topic-TopicAnswer :
    (storage : TopicStorage) (name : Bytes) (cluster : ClusterMetadata) (o : Option Uuid)
    → TopicAnswer o
        (λ id. find id cluster.partition_ids)
        name
        (describe_topic storage name cluster (found (throw (runtime_error "unknown topic name")) o))
unfolding found
describe_topic-TopicAnswer storage name cluster none =
    unfold describe_topic new_response_topic in
    (
      new_response_topic storage unknown_topic_or_partition name nil_uuid [],
      refl,
      refl,
      refl,
      refl,
      refl,
    )
describe_topic-TopicAnswer storage name cluster (some id) =
    describe_topic-KnownAnswer storage name cluster id _ refl

abbrev pub LacksPartitions : Option Uuid → (Uuid → Option (List Int32)) → Type 0
LacksPartitions none partitions = ⊥
LacksPartitions (some id) partitions = partitions id ≡ none

KnownAnswer-cases :
    (id : Uuid) (o : Option (List Int32)) (name : Bytes) {answer : Outcome ResponseTopic}
    → KnownAnswer id o name answer
    → ((t : ResponseTopic) × (answer ≡ ok t) × KnownAnswer id o name (ok t))
      ⊎ ((answer ≡ throw (runtime_error "unknown topic id")) × (o ≡ none))
KnownAnswer-cases id none name h = inr (h, refl)
KnownAnswer-cases id (some ids) name (t, e, a, b, c, d, f) = inl (t, e, (t, refl, a, b, c, d, f))

TopicAnswer-cases :
    (o : Option Uuid) (partitions : Uuid → Option (List Int32)) (name : Bytes)
    {answer : Outcome ResponseTopic}
    → TopicAnswer o partitions name answer
    → ((t : ResponseTopic) × (answer ≡ ok t) × TopicAnswer o partitions name (ok t))
      ⊎ ((answer ≡ throw (runtime_error "unknown topic id")) × LacksPartitions o partitions)
TopicAnswer-cases none partitions name (t, e, a, b, c, d) = inl (t, e, (t, refl, a, b, c, d))
TopicAnswer-cases (some id) partitions name h = KnownAnswer-cases id (partitions id) name h

module _ {F : Type 0} ⦃r : Readable F⦄ (env : Environment F) (cluster : ClusterMetadata) where
  -- Once the cluster metadata is loaded, a topic is answered as `TopicAnswer` says, on every branch,
  -- and the metadata stays.
  pub make_response_topic_lem :
      (storage : TopicStorage) (t : TopicRequest)
      → (answer : Outcome ResponseTopic) × (make_response_topic env storage t (some cluster)
          ≡ from_outcome answer (some cluster))
        × TopicAnswer
            (find t.name cluster.topic_ids)
            (λ id. find id cluster.partition_ids)
            t.name
            answer
  unfolding make_response_topic get_instance ◌>>=◌ get_topic_id
  make_response_topic_lem storage t = (
    describe_topic storage t.name cluster (get_topic_id cluster t.name),
    refl,
    describe_topic-TopicAnswer storage t.name cluster (find t.name cluster.topic_ids),
  )

  -- Each topic of the response answers the request's topic at its position.
  abbrev pub AnswersAll : List TopicRequest → List ResponseTopic → Type 0
  AnswersAll [] [] = Unit
  AnswersAll (q ∷ qs) (t ∷ ts) =
      TopicAnswer (find q.name cluster.topic_ids) (λ id. find id cluster.partition_ids) q.name
        (ok t)
      × AnswersAll qs ts
  AnswersAll _ _ = ⊥

  -- The cluster has an id for the topic's name, but no partition for the id.
  abbrev pub Partitionless : TopicRequest → Type 0
  Partitionless q =
      LacksPartitions (find q.name cluster.topic_ids) (λ id. find id cluster.partition_ids)

  make_response_topic-cases :
      (storage : TopicStorage) (q : TopicRequest)
      → ((t : ResponseTopic) × (make_response_topic env storage q (some cluster)
            ≡ ok (t, some cluster))
          × TopicAnswer
              (find q.name cluster.topic_ids)
              (λ id. find id cluster.partition_ids)
              q.name
              (ok t))
        ⊎ ((make_response_topic env storage q (some cluster)
              ≡ throw (runtime_error "unknown topic id"))
            × Partitionless q)
  unfolding from_outcome
  make_response_topic-cases storage q =
      let (answer, made, fits) = make_response_topic_lem storage q in
      elim (TopicAnswer-cases (find q.name cluster.topic_ids) (λ id. find id cluster.partition_ids)
        q.name fits) [
          | inl (t, e, good) ↦ inl (t, made ∙ ap (λ o. from_outcome o (some cluster)) e, good)
          | inr (e, bad) ↦ inr (made ∙ ap (λ o. from_outcome o (some cluster)) e, bad)
        ]

  abbrev pub AnyPartitionless : List TopicRequest → Type 0
  AnyPartitionless [] = ⊥
  AnyPartitionless (q ∷ qs) = Partitionless q ⊎ AnyPartitionless qs

  make_response_topics-cases :
      (storage : ℕ → TopicStorage) (qs : List TopicRequest)
      → ((ts : List ResponseTopic) × (make_response_topics env storage qs (some cluster)
            ≡ ok (ts, some cluster))
          × AnswersAll qs ts)
        ⊎ ((make_response_topics env storage qs (some cluster)
              ≡ throw (runtime_error "unknown topic id"))
            × AnyPartitionless qs)
  unfolding make_response_topics pure ◌>>=◌
  make_response_topics-cases storage [] = inl ([], refl, tt)
  make_response_topics-cases storage (q ∷ qs) =
      let rest = make_response_topics-cases (λ i. storage (suc i)) qs in
      elim (make_response_topic-cases (storage 0) q) [
        | inl (t, e, good) ↦ elim rest [
          | inl (ts, k, all) ↦ inl (t ∷ ts, rw (e, k), (good, all))
          | inr (k, any) ↦ inr (rw (e, k), inr any)
        ]
        | inr (e, bad) ↦ inr (rw e, inl bad)
      ]

  -- Once the cluster metadata is loaded, a DescribeTopicPartitions request is either answered, topic by
  -- topic as `TopicAnswer` says, or it names a topic without a partition, and the handler throws
  -- where no `catch` is. The metadata stays.
  pub handle_describe_topic_partitions_lem :
      (storage : Storage) (m : RequestMessage) (request : DescribeTopicPartitionsRequest)
      → as_describe_topic_partitions_request m.request ≡ some request
      → ((response : DescribeTopicPartitionsResponse) × (handle_describe_topic_partitions env
              storage m
              (some cluster)
            ≡ ok (response, some cluster))
          × (response.throttle_time_ms ≡ 0)
          × AnswersAll request.topics response.topics)
        ⊎ ((handle_describe_topic_partitions env storage m (some cluster)
              ≡ throw (runtime_error "unknown topic id"))
            × AnyPartitionless request.topics)
  unfolding handle_describe_topic_partitions respond_describe_topic_partitions pure ◌>>=◌
  handle_describe_topic_partitions_lem storage m request h =
      elim (make_response_topics-cases storage.described request.topics) [
        | inl (ts, e, all) ↦
            inl (record { throttle_time_ms = 0; topics = ts }, rw (h, e), refl, all)
        | inr (e, any) ↦ inr (rw (h, e), any)
      ]
