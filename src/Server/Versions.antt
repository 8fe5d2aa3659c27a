-- ===== src/Server/Versions.antt =====
-- What `handle_api_versions` advertises, and what the broker does with it.
use kafka_cpp_server.Prelude.{◌≤◌, ◌<◌, ◌≡◌, ◌⊎◌, inl, inr, refl, sym, List, [], ◌∷◌, ne→==, arith}
use kafka_cpp_server.Protocol.Types.{Int16}
use kafka_cpp_server.Protocol.Constants
use kafka_cpp_server.Protocol.Constants.{ApiKey, no_error, unsupported_version}
use kafka_cpp_server.Protocol.Outcome.{undefined, undefined_behaviour}
use kafka_cpp_server.Protocol.Stream.{Readable}
use kafka_cpp_server.Message.ApiVersions.{ApiVersion}
use kafka_cpp_server.Message.Messages.{RequestMessage, read_request}
use kafka_cpp_server.Server.Handlers.{handle_api_versions}

-- The entry for a key is in the list, with a range that holds the version.
abbrev pub Advertises : List ApiVersion → ApiKey → Int16 → Type 0
Advertises [] key version = ⊥
Advertises (v ∷ vs) key version =
    ((v.api_key ≡ key) × (v.min_version ≤ version) × (version ≤ v.max_version))
    ⊎ Advertises vs key version

-- A key that the answer to version 4 does not advertise with any version is one at which the
-- reading of a request is undefined behaviour, on every stream.
pub not_advertised_undefined :
    (m : RequestMessage) (key : ApiKey)
    → m.header.request_api_version ≡ 4
    → ((version : Int16) → ¬ Advertises (handle_api_versions m).api_keys key version)
    → {S : Type 0} ⦃r : Readable S⦄ (s : S) → read_request key s ≡ undefined
unfolding handle_api_versions read_request undefined_behaviour
not_advertised_undefined m key h none_fits s =
    let refused = rw h at (none_fits 0) in
    rw (
      ne→== key Constants.fetch (λ e. refused (inl (sym e, omega arith, omega arith))),
      ne→== key Constants.api_versions (λ e. refused (inr (inl (sym e, omega arith, omega arith)))),
      ne→== key Constants.describe_topic_partitions
          (λ e. refused (inr (inr (inl (sym e, omega arith, omega arith))))),
    )

-- Versions 0 to 3 of ApiVersions lie in the range that the answer to version 4 advertises for it, and
-- are refused.
pub advertised_version_refused :
    (four m : RequestMessage)
    → four.header.request_api_version ≡ 4
    → m.header.request_api_version < 4
    → Advertises
        (handle_api_versions four).api_keys
        Constants.api_versions
        m.header.request_api_version
      × ((handle_api_versions m).error_code ≡ unsupported_version)
unfolding handle_api_versions
advertised_version_refused four m h k =
    (rw h (inr (inl (refl, omega arith, omega arith))), ground arith)
