-- ===== src/Server/Instance.antt =====
-- The instance of ClusterMetadata, which the threads share: what a handler makes of it, and that a
-- request is answered as on a broker that has not loaded it yet.
use kafka_cpp_server.Prelude.{ℕ, suc, ◌≡◌, refl, ap, ◌∙◌, List, [], ◌∷◌, Option, none, some, ◌==◌}
use mathlib.Core.Path.{subst}
use kafka_cpp_server.Protocol.Constants
use kafka_cpp_server.Protocol.Outcome.{Outcome, ok, throw, undefined, unfinished}
use kafka_cpp_server.Protocol.Gives.{
  Gives, returned, Gives-pure, Gives-undefined, Gives-from_outcome, Gives-bind, Gives-if,
}
use kafka_cpp_server.Protocol.Stream.{Readable}
use kafka_cpp_server.Metadata.Cluster.{ClusterMetadata, load_cluster, keep_made, get_instance}
use kafka_cpp_server.Message.Fetch.{FetchTopic, FetchRequest}
use kafka_cpp_server.Message.DescribeTopicPartitions.{TopicRequest, DescribeTopicPartitionsRequest}
use kafka_cpp_server.Message.Messages.{RequestMessage}
use kafka_cpp_server.Server.Handlers.{
  PartitionStorage, TopicStorage, Storage, Environment, make_fetchable_topic_response,
  make_fetchable_topic_responses, respond_fetch, handle_fetch, make_response_topic,
  make_response_topics, respond_describe_topic_partitions, handle_describe_topic_partitions,
}
use kafka_cpp_server.Server.Serve.{handle}

-- Nothing is said of what the code returns.
abbrev pub Any : {A : Type 0} → A → Type 0
Any a = Unit

module _ {F : Type 0} ⦃r : Readable F⦄ (env : Environment F) where
  -- The instance is not made yet, or it is what the constructor makes of the files.
  abbrev pub IsInstance : Option ClusterMetadata → Type 0
  IsInstance none = Unit
  IsInstance (some cluster) = load_cluster env.files env.fuel ≡ ok cluster

  pub Gives-get_instance :
      Gives IsInstance
        (λ cluster. load_cluster env.files env.fuel ≡ ok cluster)
        (get_instance env.files env.fuel)
  unfolding get_instance
  Gives-get_instance = record { gives = gives_loaded }
    where
      from_constructor :
          (o : Outcome ClusterMetadata) (c : ClusterMetadata) (j : Option ClusterMetadata)
          → load_cluster env.files env.fuel ≡ o
          → keep_made o ≡ ok (c, j)
          → (load_cluster env.files env.fuel ≡ ok c) × IsInstance j
      from_constructor (ok cluster) c j q e =
          let (same, left) = returned e in (q ∙ ap ok same, subst IsInstance left q)
      from_constructor (throw x) c j q e = cc
      from_constructor undefined c j q e = cc
      from_constructor unfinished c j q e = cc

      gives_loaded :
          (i : Option ClusterMetadata) (c : ClusterMetadata) (j : Option ClusterMetadata)
          → IsInstance i
          → get_instance env.files env.fuel i ≡ ok (c, j)
          → (load_cluster env.files env.fuel ≡ ok c) × IsInstance j
      gives_loaded none c j h e = from_constructor (load_cluster env.files env.fuel) c j refl e
      gives_loaded (some cluster) c j h e =
          let (same, left) = returned e in (h ∙ ap ok same, subst IsInstance left h)

  Gives-fetch_topics :
      (storage : ℕ → ℕ → PartitionStorage) (ts : List FetchTopic)
      → Gives IsInstance Any (make_fetchable_topic_responses env storage ts)
  unfolding make_fetchable_topic_responses make_fetchable_topic_response
  Gives-fetch_topics storage [] = Gives-pure Any [] tt
  Gives-fetch_topics storage (t ∷ ts) =
      Gives-bind _ Any _ _
        (Gives-bind _ Any _ _ Gives-get_instance (λ c _.
          Gives-bind _ Any _ _ (Gives-from_outcome Any _ (λ a e. tt)) (λ p _. Gives-pure Any _ tt)))
        (λ a _.
          Gives-bind _ Any _ _ (Gives-fetch_topics (λ i. storage (suc i)) ts)
            (λ l _. Gives-pure Any _ tt))

  Gives-describe_topics :
      (storage : ℕ → TopicStorage) (ts : List TopicRequest)
      → Gives IsInstance Any (make_response_topics env storage ts)
  unfolding make_response_topics make_response_topic
  Gives-describe_topics storage [] = Gives-pure Any [] tt
  Gives-describe_topics storage (t ∷ ts) =
      Gives-bind _ Any _ _
        (Gives-bind _ Any _ _ Gives-get_instance (λ c _. Gives-from_outcome Any _ (λ a e. tt)))
        (λ a _.
          Gives-bind _ Any _ _ (Gives-describe_topics (λ i. storage (suc i)) ts)
            (λ l _. Gives-pure Any _ tt))

  Gives-respond_fetch :
      (storage : Storage) (r : Option FetchRequest)
      → Gives IsInstance Any (respond_fetch env storage r)
  unfolding respond_fetch
  Gives-respond_fetch storage none = Gives-undefined Any
  Gives-respond_fetch storage (some request) =
      Gives-bind _ Any _ _ (Gives-fetch_topics storage.fetched request.topics)
        (λ a _. Gives-pure Any _ tt)

  Gives-respond_describe :
      (storage : Storage) (r : Option DescribeTopicPartitionsRequest)
      → Gives IsInstance Any (respond_describe_topic_partitions env storage r)
  unfolding respond_describe_topic_partitions
  Gives-respond_describe storage none = Gives-undefined Any
  Gives-respond_describe storage (some request) =
      Gives-bind _ Any _ _ (Gives-describe_topics storage.described request.topics)
        (λ a _. Gives-pure Any _ tt)

  pub Gives-handle :
      (storage : Storage) (m : RequestMessage) → Gives IsInstance Any (handle env storage m)
  unfolding handle handle_fetch handle_describe_topic_partitions
  Gives-handle storage m =
      Gives-if Any (m.header.request_api_key == Constants.fetch) _ _
        (λ _. Gives-bind _ Any _ _ (Gives-respond_fetch storage _) (λ a _. Gives-pure Any _ tt))
        (λ _.
          Gives-if Any (m.header.request_api_key == Constants.api_versions) _ _
            (λ _. Gives-pure Any _ tt)
            (λ _.
              Gives-if Any (m.header.request_api_key == Constants.describe_topic_partitions) _ _
                (λ _.
                  Gives-bind _ Any _ _ (Gives-respond_describe storage _)
                    (λ a _. Gives-pure Any _ tt))
                (λ _. Gives-undefined Any)))
