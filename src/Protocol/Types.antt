-- ===== src/Protocol/Types.antt =====
-- include/kafka/protocol/types.hpp and uuid.hpp. A signed integer of w bits is its two's complement
-- bit pattern, a number below 2 ^ w; a string or a byte vector is the list of its bytes.
use kafka_cpp_server.Prelude.{ℕ, ◌^◌, ◌<◌, Bool, true, false, leb, ltb}
use kafka_cpp_server.Prelude.{List, [], ◌∷◌, if◌then◌else◌, ◌-◌, ◌==◌}

abbrev pub Bytes : Type 0
Bytes = List ℕ

abbrev pub IsByte : ℕ → Type 0
IsByte b = b < 256

abbrev pub Boolean : Type 0
Boolean = Bool

abbrev pub Int8 : Type 0
Int8 = ℕ

abbrev pub Int16 : Type 0
Int16 = ℕ

abbrev pub Int32 : Type 0
Int32 = ℕ

abbrev pub Int64 : Type 0
Int64 = ℕ

abbrev pub UInt32 : Type 0
UInt32 = ℕ

abbrev pub VarInt : Type 0
VarInt = ℕ

abbrev pub UnsignedVarInt : Type 0
UnsignedVarInt = ℕ

abbrev pub VarLong : Type 0
VarLong = ℕ

abbrev pub UnsignedVarLong : Type 0
UnsignedVarLong = ℕ

abbrev pub CompactString : Type 0
CompactString = Bytes

abbrev pub NullableString : Type 0
NullableString = Bytes

abbrev pub CompactNullableString : Type 0
CompactNullableString = Bytes

abbrev pub Array : Type 0 → Type 0
Array T = List T

abbrev pub CompactArray : Type 0 → Type 0
CompactArray T = List T

-- The 16 bytes of `data_`.
abbrev pub Uuid : Type 0
Uuid = Bytes

-- The constructor's `memset(data_, 0, sizeof(data_))`.
abbrev pub nil_uuid : Uuid
nil_uuid = 0 ∷ 0 ∷ 0 ∷ 0 ∷ 0 ∷ 0 ∷ 0 ∷ 0 ∷ 0 ∷ 0 ∷ 0 ∷ 0 ∷ 0 ∷ 0 ∷ 0 ∷ 0 ∷ []

-- `n < 0` for the bit pattern of a signed integer of `w` bits.
abbrev pub is_negative : ℕ → ℕ → Bool
is_negative w n = leb (2 ^ (w - 1)) n

-- The order of `std::string`: the first bytes that differ decide, and a prefix comes first. On two
-- blocks of one size it is `memcmp(a, b, size) < 0`.
unfoldable pub bytes_lt : Bytes → Bytes → Bool
bytes_lt as' [] = false
bytes_lt [] (b ∷ bs) = true
bytes_lt (a ∷ as') (b ∷ bs) = if ltb a b then true else if a == b then bytes_lt as' bs else false

-- `UUIDCompare`
unfoldable pub uuid_compare : Uuid → Uuid → Bool
unfolding bytes_lt
uuid_compare uuid1 uuid2 = bytes_lt uuid1 uuid2
