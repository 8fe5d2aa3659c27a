-- ===== src/Server/Serve.antt =====
-- `serve_client` of src/network/server.cpp over a Client of include/kafka/network/client.hpp.
use kafka_cpp_server.Prelude.{ℕ, zero, suc, Option, ◌==◌, if◌then◌else◌}
use kafka_cpp_server.Protocol.Constants
use kafka_cpp_server.Protocol.Constants.{ApiKey}
use kafka_cpp_server.Protocol.Outcome.{
  Io, ok, throw, undefined, unfinished, ◌>>=◌, ◌>>◌, pure, undefined_behaviour, out_of_fuel,
}
use kafka_cpp_server.Protocol.Stream.{Readable, Writable}
use kafka_cpp_server.Metadata.Cluster.{ClusterMetadata}
use kafka_cpp_server.Message.Messages.{
  RequestMessage, AbstractResponse, fetch_response, api_versions_response,
  describe_topic_partitions_response, read_request_message, write_response_message,
}
use kafka_cpp_server.Server.Handlers.{
  Environment, Storage, handle_fetch, handle_api_versions, handle_describe_topic_partitions,
}

-- What a thread of `serve_client` works on: the client's connection, and the instance of
-- ClusterMetadata, if it has been made.
pub record Session (C : Type 0) : Type 0 where
  pub client : C
  pub instance_made : Option ClusterMetadata

module _ {C A : Type 0} where
  unfoldable pub on_client : Io C A → Io (Session C) A
  on_client m s = elim (m s.client) [
    | ok p ↦ ok (p.0, record s { client = p.1 })
    | throw e ↦ throw e
    | undefined ↦ undefined
    | unfinished ↦ unfinished
  ]

  unfoldable pub on_instance : Io (Option ClusterMetadata) A → Io (Session C) A
  on_instance m s = elim (m s.instance_made) [
    | ok p ↦ ok (p.0, record s { instance_made = p.1 })
    | throw e ↦ throw e
    | undefined ↦ undefined
    | unfinished ↦ unfinished
  ]

module _ {F : Type 0} ⦃f : Readable F⦄ (env : Environment F) where
  -- The `switch` on the API key. `response` stays null for another key, and `write` on it is
  -- undefined.
  unfoldable pub handle : Storage → RequestMessage → Io (Option ClusterMetadata) AbstractResponse
  handle storage request_message =
      let api_key = request_message.header.request_api_key in
      if api_key == Constants.fetch
      then handle_fetch env storage request_message >>= (λ r. pure (fetch_response r))
      else if api_key == Constants.api_versions
      then pure (api_versions_response (handle_api_versions request_message))
      else if api_key == Constants.describe_topic_partitions
      then handle_describe_topic_partitions env storage request_message
        >>= (λ r. pure (describe_topic_partitions_response r))
      else undefined_behaviour

module _ {F C : Type 0} ⦃f : Readable F⦄ ⦃r : Readable C⦄ ⦃w : Writable C⦄
    (env : Environment F) where
  -- One round of the loop: read a request, handle it, write the response.
  unfoldable pub serve_request : Storage → Io (Session C) (Unit {0})
  serve_request storage = do
    request_message ← on_client read_request_message
    response ← on_instance (handle env storage request_message)
    on_client (
        write_response_message (record {
          header = record { correlation_id = request_message.header.correlation_id };
          response = response;
        }))

  -- `for ( ; ; )`: the loop is left by an exception alone. `storage` is for each round.
  unfoldable pub serve_client : ℕ → (ℕ → Storage) → Io (Session C) (Unit {0})
  serve_client zero storage = out_of_fuel
  serve_client (suc rounds) storage = do
    serve_request (storage 0)
    serve_client rounds (λ i. storage (suc i))
