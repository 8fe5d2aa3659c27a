-- ===== src/Server/Alone.antt =====
-- A request is answered as on a broker that has not loaded its metadata yet, whatever requests have
-- been handled before.
use kafka_cpp_server.Prelude.{
  ℕ, ◌≡◌, refl, sym, ap, ◌∙◌, List, [], ◌∷◌, Option, none, some, Bool, true, false, ◌==◌,
  if◌then◌else◌,
}
use kafka_cpp_server.Protocol.Constants
use kafka_cpp_server.Protocol.Outcome.{
  Outcome, Io, ok, throw, undefined, unfinished, then_run, ◌>>=◌, pure, undefined_behaviour,
}
use kafka_cpp_server.Protocol.Stream.{Readable}
use kafka_cpp_server.Metadata.Cluster.{ClusterMetadata, load_cluster, keep_made, get_instance}
use kafka_cpp_server.Message.Fetch.{FetchTopic, FetchRequest}
use kafka_cpp_server.Message.DescribeTopicPartitions.{TopicRequest, DescribeTopicPartitionsRequest}
use kafka_cpp_server.Message.Messages.{
  RequestMessage, fetch_response, describe_topic_partitions_response,
}
use kafka_cpp_server.Server.Handlers.{
  PartitionStorage, TopicStorage, Storage, Environment, make_fetchable_topic_response,
  make_fetchable_topic_responses, respond_fetch, handle_fetch, make_response_topic,
  make_response_topics, respond_describe_topic_partitions, handle_describe_topic_partitions,
}
use kafka_cpp_server.Server.Serve.{handle}
use kafka_cpp_server.Server.Instance.{IsInstance}

-- An outcome without the state that it leaves.
abbrev pub result_of : {A S : Type 0} → Outcome (A × S) → Outcome A
result_of (ok (a, s)) = ok a
result_of (throw e) = throw e
result_of undefined = undefined
result_of unfinished = unfinished

abbrev pub map_outcome : {A B : Type 0} → (A → B) → Outcome A → Outcome B
map_outcome g (ok a) = ok (g a)
map_outcome g (throw e) = throw e
map_outcome g undefined = undefined
map_outcome g unfinished = unfinished

module _ {S A : Type 0} {s t : S} where
  >>=-same : {B : Type 0} (m : Io S A) (f : A → Io S B) → m s ≡ m t → (m >>= f) s ≡ (m >>= f) t
  unfolding ◌>>=◌
  >>=-same m f h = ap (then_run f) h

result_of-pure :
    {S A B : Type 0} (g : A → B) (o : Outcome (A × S))
    → result_of (then_run (λ a. pure (g a)) o) ≡ map_outcome g (result_of o)
unfolding pure
result_of-pure g (ok (a, s)) = refl
result_of-pure g (throw e) = refl
result_of-pure g undefined = refl
result_of-pure g unfinished = refl

module _ {S : Type 0} (s t : S) where
  -- The state makes no difference to the result.
  abbrev pub SameResult : {A : Type 0} → Io S A → Type 0
  SameResult m = result_of (m s) ≡ result_of (m t)

  SameResult-last :
      {A B : Type 0} (m : Io S A) (g : A → B) → SameResult m → SameResult (m >>= λ a. pure (g a))
  unfolding ◌>>=◌
  SameResult-last m g h =
      result_of-pure g (m s) ∙ ap (map_outcome g) h ∙ sym (result_of-pure g (m t))

  SameResult-if :
      {A : Type 0} (b : Bool) (m n : Io S A)
      → SameResult m
      → SameResult n
      → SameResult (if b then m else n)
  SameResult-if true m n h k = h
  SameResult-if false m n h k = k

module _ {F : Type 0} ⦃r : Readable F⦄ (env : Environment F) (cluster : ClusterMetadata)
    (loads : load_cluster env.files env.fuel ≡ ok cluster) where
  get_instance-same :
      get_instance env.files env.fuel none ≡ get_instance env.files env.fuel (some cluster)
  unfolding get_instance
  get_instance-same = ap keep_made loads

  fetch_topics-same :
      (storage : ℕ → ℕ → PartitionStorage) (ts : List FetchTopic)
      → SameResult none (some cluster) (make_fetchable_topic_responses env storage ts)
  unfolding make_fetchable_topic_responses make_fetchable_topic_response pure
  fetch_topics-same storage [] = refl
  fetch_topics-same storage (t ∷ ts) =
      ap result_of (>>=-same _ _ (>>=-same (get_instance env.files env.fuel) _ get_instance-same))

  describe_topics-same :
      (storage : ℕ → TopicStorage) (ts : List TopicRequest)
      → SameResult none (some cluster) (make_response_topics env storage ts)
  unfolding make_response_topics make_response_topic pure
  describe_topics-same storage [] = refl
  describe_topics-same storage (t ∷ ts) =
      ap result_of (>>=-same _ _ (>>=-same (get_instance env.files env.fuel) _ get_instance-same))

  respond_fetch-same :
      (storage : Storage) (q : Option FetchRequest)
      → SameResult none (some cluster) (respond_fetch env storage q)
  unfolding respond_fetch undefined_behaviour
  respond_fetch-same storage none = refl
  respond_fetch-same storage (some q) =
      SameResult-last _ _ _ _ (fetch_topics-same storage.fetched q.topics)

  respond_describe-same :
      (storage : Storage) (q : Option DescribeTopicPartitionsRequest)
      → SameResult none (some cluster) (respond_describe_topic_partitions env storage q)
  unfolding respond_describe_topic_partitions undefined_behaviour
  respond_describe-same storage none = refl
  respond_describe-same storage (some q) =
      SameResult-last _ _ _ _ (describe_topics-same storage.described q.topics)

  handle-same :
      (storage : Storage) (m : RequestMessage)
      → SameResult none (some cluster) (handle env storage m)
  unfolding handle handle_fetch handle_describe_topic_partitions pure undefined_behaviour
  handle-same storage m =
      SameResult-if _ _ (m.header.request_api_key == Constants.fetch) _ _
        (SameResult-last _ _ _ fetch_response (respond_fetch-same storage _))
        (SameResult-if _ _ (m.header.request_api_key == Constants.api_versions) _ _ refl (
          SameResult-if _ _ (m.header.request_api_key == Constants.describe_topic_partitions) _ _
            (SameResult-last _ _ _ describe_topic_partitions_response
              (respond_describe-same storage _))
            refl))

module _ {F : Type 0} ⦃r : Readable F⦄ (env : Environment F) where
  -- Whether the instance of ClusterMetadata has been made by an earlier request or has not, a request
  -- is handled to the same result: the same response, or the same exception or undefined behaviour.
  pub handle-alone :
      (storage : Storage) (m : RequestMessage) (i : Option ClusterMetadata)
      → IsInstance env i
      → result_of (handle env storage m i) ≡ result_of (handle env storage m none)
  handle-alone storage m none h = refl
  handle-alone storage m (some cluster) h = sym (handle-same env cluster h storage m)
