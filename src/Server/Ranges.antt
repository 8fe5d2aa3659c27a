-- ===== src/Server/Ranges.antt =====
-- The handlers' responses have their fields in their ranges.
use kafka_cpp_server.Prelude.{
  ℕ, ◌-◌, ◌^◌, ◌<◌, ◌≡◌, List, some, Bool, true, false, length, All, ◌==◌, if◌then◌else◌, arith,
}
use kafka_cpp_server.Protocol.Types.{Bytes, IsByte, Int16, Int32}
use kafka_cpp_server.Protocol.Outcome.{ok}
use kafka_cpp_server.Protocol.Stream.{Readable}
use kafka_cpp_server.Metadata.LoadEnds.{LogsFit}
use kafka_cpp_server.Metadata.Cluster.{ClusterMetadata, load_cluster}
use kafka_cpp_server.Metadata.ClusterValues.{Values}
use kafka_cpp_server.Message.Messages.{RequestMessage}
use kafka_cpp_server.Message.ResponseValues.{IsApiVersion, IsApiVersionsResponse}
use kafka_cpp_server.Server.Handlers.{
  PartitionStorage, ReplicaStorage, TopicStorage, Storage, Environment, handle_api_versions,
}

either : {A : Type 0} (P : A → Type 0) (b : Bool) (x y : A) → P x → P y → P (if b then x else y)
either P true x y h k = h
either P false x y h k = k

pub handle_api_versions-IsApiVersionsResponse :
    (m : RequestMessage) → IsApiVersionsResponse (handle_api_versions m)
unfolding handle_api_versions
handle_api_versions-IsApiVersionsResponse m =
    either IsApiVersionsResponse (m.header.request_api_version == 4) _ _
      (record {
        error_code_fits = omega arith;
        api_keys_fit = omega arith;
        api_keys_valid = (
          fits 1 16 (omega arith) (omega arith),
          (fits 18 4 (omega arith) (omega arith), (fits 75 0 (omega arith) (omega arith), tt)),
        );
        throttle_time_ms_fits = omega arith;
      })
      (record {
        error_code_fits = omega arith;
        api_keys_fit = omega arith;
        api_keys_valid = tt;
        throttle_time_ms_fits = omega arith;
      })
  where
    fits :
        (key version : Int16)
        → key < 2 ^ 16
        → version < 2 ^ 16
        → IsApiVersion (record { api_key = key; min_version = 0; max_version = version })
    fits key version h k = record {
      api_key_fits = h;
      min_version_fits = omega arith;
      max_version_fits = k;
    }

-- The contents of storage are those of integers of their widths.
pub record IsPartitionStorage (s : PartitionStorage) : Type 0 where
  pub high_watermark_fits : s.high_watermark < 2 ^ 64
  pub last_stable_offset_fits : s.last_stable_offset < 2 ^ 64
  pub log_start_offset_fits : s.log_start_offset < 2 ^ 64
  pub preferred_read_replica_fits : s.preferred_read_replica < 2 ^ 32

abbrev pub IsReplicaStorage : ReplicaStorage → Type 0
IsReplicaStorage s = (s.leader_id < 2 ^ 32) × (s.leader_epoch < 2 ^ 32)

pub record IsTopicStorage (s : TopicStorage) : Type 0 where
  pub topic_authorized_operations_fit : s.topic_authorized_operations < 2 ^ 32
  pub replicas_fit : (j : ℕ) → IsReplicaStorage (s.replicas j)

pub record IsStorage (s : Storage) : Type 0 where
  pub fetched_fit : (i j : ℕ) → IsPartitionStorage (s.fetched i j)
  pub described_fit : (i : ℕ) → IsTopicStorage (s.described i)

-- The log files behave as their bytes, of which there are fewer than the bound on the rounds of the
-- loop that reads them; that bound is below 2 ^ 32 - 1; and every topic of the metadata has fewer
-- than 2 ^ 32 - 1 partitions.
pub record IsBroker {F : Type 0} ⦃f : Readable F⦄ (env : Environment F) (valid : F → Type 0)
    (view : F → Bytes) : Type 0 where
  pub logs : LogsFit env.files env.fuel valid view
  pub of_bytes : (path : Bytes) (f : F) → env.files.open_file path ≡ some f → All IsByte (view f)
  pub fuel_fits : env.fuel < 2 ^ 32 - 1
  pub few_partitions :
      (cluster : ClusterMetadata)
      → load_cluster env.files env.fuel ≡ ok cluster
      → Values (λ (l : List Int32). length l < 2 ^ 32 - 1) cluster.partition_ids
