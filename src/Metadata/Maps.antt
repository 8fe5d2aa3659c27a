-- ===== src/Metadata/Maps.antt =====
-- What the program uses of `std::map`: `find` and `operator[]`. Its keys are strings, and UUIDs
-- under `UUIDCompare`, which compare alike. No code walks over a map, so that the order of its entries
-- is not kept.
use kafka_cpp_server.Prelude.{List, [], ◌∷◌, Option, none, some, Bool, not, ◌&&◌, if◌then◌else◌}
use kafka_cpp_server.Protocol.Types.{Bytes, bytes_lt}

-- Two keys are one for a map if neither is less than the other.
unfoldable pub equivalent : Bytes → Bytes → Bool
equivalent a b = not (bytes_lt a b) && not (bytes_lt b a)

abbrev pub Map : Type 0 → Type 0
Map V = List (Bytes × V)

module _ {V : Type 0} where
  unfoldable pub find : Bytes → Map V → Option V
  find k [] = none
  find k ((j, v) ∷ m) = if equivalent j k then some v else find k m

  -- `m[k] = v`
  unfoldable pub assign : Bytes → V → Map V → Map V
  assign k v [] = (k, v) ∷ []
  assign k v ((j, w) ∷ m) = if equivalent j k then (j, v) ∷ m else (j, w) ∷ assign k v m
