-- ===== src/Protocol/ByteOrder.antt =====
-- Integers in memory, and the byte order functions of include/kafka/utils.hpp.
use kafka_cpp_server.Prelude.{ℕ, zero, suc, ◌+◌, ◌*◌, ◌/◌, ◌%◌, [], ◌∷◌, reverse}
use kafka_cpp_server.Protocol.Types.{Bytes}

pub data Endian : Type 0 where
  little big : Endian

-- `std::endian::native` of the x86-64 and arm64 hosts on which the broker runs.
abbrev pub native_endian : Endian
native_endian = little

-- The number of a list of bytes, lowest first, and the `w` bytes of a number.
unfoldable pub le_value : Bytes → ℕ
le_value [] = 0
le_value (b ∷ bs) = b + 256 * le_value bs

unfoldable pub le_bytes : ℕ → ℕ → Bytes
le_bytes zero n = []
le_bytes (suc w) n = n % 256 ∷ le_bytes w (n / 256)

-- The integer that a host finds in its memory, and the memory that holds an integer of `w` bytes.
unfoldable pub load : Endian → Bytes → ℕ
unfolding le_value
load little bs = le_value bs
load big bs = le_value (reverse bs)

unfoldable pub store : Endian → ℕ → ℕ → Bytes
unfolding le_bytes
store little w n = le_bytes w n
store big w n = reverse (le_bytes w n)

-- `std::byteswap` on an integer of `w` bytes.
unfoldable pub byteswap : ℕ → ℕ → ℕ
unfolding le_value le_bytes
byteswap w n = le_value (reverse (le_bytes w n))

unfoldable pub to_host_byte_order : Endian → ℕ → ℕ → ℕ
unfolding byteswap
to_host_byte_order big w n = n
to_host_byte_order little w n = byteswap w n

unfoldable pub to_network_byte_order : Endian → ℕ → ℕ → ℕ
unfolding byteswap
to_network_byte_order big w n = n
to_network_byte_order little w n = byteswap w n
