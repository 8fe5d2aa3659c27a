-- ===== src/Server/HandleRanges.antt =====
-- `serve_client`'s `switch` on the API key: the fields of a response are in their ranges.
use kafka_cpp_server.Prelude.{◌≡◌, Option, ◌==◌}
use kafka_cpp_server.Protocol.Types.{Bytes}
use kafka_cpp_server.Protocol.Constants
use kafka_cpp_server.Protocol.Constants.{ApiKey}
use kafka_cpp_server.Protocol.Outcome.{ok}
use kafka_cpp_server.Protocol.Stream.{Readable}
use kafka_cpp_server.Protocol.Gives.{Gives, Gives-undefined, Gives-pure, Gives-if, Gives-map}
use kafka_cpp_server.Metadata.Cluster.{ClusterMetadata}
use kafka_cpp_server.Message.Sent.{IsRequest}
use kafka_cpp_server.Message.Messages.{
  AbstractRequest, fetch_request, api_versions_request, describe_topic_partitions_request,
  RequestMessage, AbstractResponse, fetch_response, describe_topic_partitions_response,
  as_fetch_request, as_describe_topic_partitions_request,
}
use kafka_cpp_server.Message.ResponseValues.{
  IsFetchResponse, IsDescribeTopicPartitionsResponse, IsResponse,
}
use kafka_cpp_server.Server.Handlers.{
  Storage, Environment, respond_fetch, handle_fetch, respond_describe_topic_partitions,
  handle_describe_topic_partitions,
}
use kafka_cpp_server.Server.Serve.{handle}
use kafka_cpp_server.Server.Instance.{IsInstance}
use kafka_cpp_server.Server.Ranges.{IsStorage, IsBroker, handle_api_versions-IsApiVersionsResponse}
use kafka_cpp_server.Server.FetchRanges.{Gives-respond_fetch}
use kafka_cpp_server.Server.DescribeRanges.{Gives-respond_describe_topic_partitions}

module _ {F : Type 0} ⦃f : Readable F⦄ (env : Environment F) (valid : F → Type 0) (view : F → Bytes)
    (broker : IsBroker env valid view) (storage : Storage) (stored : IsStorage storage)
    (key : ApiKey) where
  -- A request that is not one of the handler's kind makes it undefined.
  Gives-fetch :
      (r : AbstractRequest)
      → IsRequest key r
      → Gives (IsInstance env) IsFetchResponse (respond_fetch env storage (as_fetch_request r))
  unfolding as_fetch_request respond_fetch
  Gives-fetch (fetch_request q) (_, h) =
      Gives-respond_fetch env valid view broker storage q stored h
  Gives-fetch (api_versions_request q) h = Gives-undefined IsFetchResponse
  Gives-fetch (describe_topic_partitions_request q) h = Gives-undefined IsFetchResponse

  Gives-describe :
      (r : AbstractRequest)
      → IsRequest key r
      → Gives
          (IsInstance env)
          IsDescribeTopicPartitionsResponse
          (respond_describe_topic_partitions env storage (as_describe_topic_partitions_request r))
  unfolding as_describe_topic_partitions_request respond_describe_topic_partitions
  Gives-describe (describe_topic_partitions_request q) (_, h) =
      Gives-respond_describe_topic_partitions env valid view broker storage q stored h
  Gives-describe (fetch_request q) h = Gives-undefined IsDescribeTopicPartitionsResponse
  Gives-describe (api_versions_request q) h = Gives-undefined IsDescribeTopicPartitionsResponse

module _ {F : Type 0} ⦃f : Readable F⦄ (env : Environment F) (valid : F → Type 0) (view : F → Bytes)
    (broker : IsBroker env valid view) (storage : Storage) (stored : IsStorage storage) where
  Gives-handle :
      (m : RequestMessage)
      → IsRequest m.header.request_api_key m.request
      → Gives (IsInstance env) IsResponse (handle env storage m)
  unfolding handle handle_fetch handle_describe_topic_partitions
  Gives-handle m h =
      let key = m.header.request_api_key in
      Gives-if IsResponse (key == Constants.fetch) _ _
        (λ _.
          Gives-map IsFetchResponse IsResponse _ fetch_response
            (Gives-fetch env valid view broker storage stored key m.request h) (λ r p. p))
        (λ _.
          Gives-if IsResponse (key == Constants.api_versions) _ _
            (λ _. Gives-pure IsResponse _ (handle_api_versions-IsApiVersionsResponse m))
            (λ _.
              Gives-if IsResponse (key == Constants.describe_topic_partitions) _ _
                (λ _.
                  Gives-map IsDescribeTopicPartitionsResponse IsResponse _
                    describe_topic_partitions_response
                    (Gives-describe env valid view broker storage stored key m.request h)
                    (λ r p. p))
                (λ _. Gives-undefined IsResponse)))

-- On log files that behave as their bytes, of which there are fewer than the bound on the rounds of
-- the loop that reads a log, a bound below 2 ^ 32 - 1, and whose metadata has fewer than 2 ^ 32 - 1
-- partitions for each topic, with an instance of ClusterMetadata that is not made or is what the
-- constructor makes of the files: every response of a handler to a request whose fields are in their
-- ranges has its own fields in their ranges, if the storage of the fields that nothing sets held
-- integers of their widths. The instance is still not made or what the constructor makes.
pub handle-IsResponse :
    {F : Type 0} ⦃f : Readable F⦄ (env : Environment F) (valid : F → Type 0) (view : F → Bytes)
    (storage : Storage) (m : RequestMessage) (i j : Option ClusterMetadata)
    (response : AbstractResponse)
    → IsBroker env valid view
    → IsStorage storage
    → IsRequest m.header.request_api_key m.request
    → IsInstance env i
    → handle env storage m i ≡ ok (response, j)
    → IsResponse response × IsInstance env j
handle-IsResponse env valid view storage m i j response broker stored h made e =
    (Gives-handle env valid view broker storage stored m h).gives i response j made e
