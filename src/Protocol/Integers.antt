-- ===== src/Protocol/Integers.antt =====
-- The fixed width integers on the wire: big-endian, whatever the host's byte order, and read back
-- as they were written.
use kafka_cpp_server.Prelude.{
  ℕ, zero, suc, ◌+◌, ◌*◌, ◌/◌, ◌%◌, ◌^◌, ◌<◌, ◌≡◌, refl, sym, ap, ◌∙◌, [], ◌∷◌, ◌++◌, length,
  reverse, reverse-reverse, All, length-append, All-append, arith,
}
use native.Mathlib.Nat.{pow-suc}
use mathlib.Core.List.{reverse-cons}
use kafka_cpp_server.Protocol.Types.{Bytes, IsByte}
use kafka_cpp_server.Protocol.Outcome.{◌>>=◌, pure}
use kafka_cpp_server.Protocol.Stream.{bytes_readable, bytes_writable, read, write}
use kafka_cpp_server.Protocol.ByteOrder.{
  Endian, little, big, native_endian, le_value, le_bytes, load, store, to_host_byte_order,
  to_network_byte_order,
}
use kafka_cpp_server.Protocol.Reading.{
  read_byte, read_int8, read_int16, read_uint32, read_int32, read_int64, read_api_key,
}
use kafka_cpp_server.Protocol.Writing.{
  write_byte, write_int8, write_int16, write_uint32, write_int32, write_int64, write_api_key,
}
use kafka_cpp_server.Protocol.RoundTrip.{RoundTrip, RoundTrip-read_as}

length-le_bytes : (w n : ℕ) → length (le_bytes w n) ≡ w
unfolding le_bytes
length-le_bytes zero n = refl
length-le_bytes (suc w) n = ap suc (length-le_bytes w (n / 256))

pub le_bytes-IsByte : (w n : ℕ) → All IsByte (le_bytes w n)
unfolding le_bytes
le_bytes-IsByte zero n = tt
le_bytes-IsByte (suc w) n = (omega arith, le_bytes-IsByte w (n / 256))

-- Every integer of `w` bytes is the value of its bytes.
le_value-le_bytes : (w n : ℕ) → n < 256 ^ w → le_value (le_bytes w n) ≡ n
unfolding le_value le_bytes
le_value-le_bytes zero n h = omega arith
le_value-le_bytes (suc w) n h =
    omega (arith, le_value-le_bytes w (n / 256) (omega (arith, pow-suc 256 w)))

lowest_byte : (b v : ℕ) → IsByte b → (b + 256 * v) % 256 ≡ b
lowest_byte b v h = omega arith

higher_bytes : (b v : ℕ) → IsByte b → (b + 256 * v) / 256 ≡ v
higher_bytes b v h = omega arith

-- Bytes are those of their value.
pub le_bytes-le_value : (bs : Bytes) → All IsByte bs → le_bytes (length bs) (le_value bs) ≡ bs
unfolding le_value le_bytes
le_bytes-le_value [] h = refl
le_bytes-le_value (b ∷ bs) (hb, h) =
    rw (lowest_byte b (le_value bs) hb, higher_bytes b (le_value bs) hb, le_bytes-le_value bs h)

-- The `w` bytes of a number, the highest first.
unfoldable pub big_endian : ℕ → ℕ → Bytes
big_endian zero n = []
big_endian (suc w) n = big_endian w (n / 256) ++ (n % 256 ∷ [])

pub length-big_endian : (w n : ℕ) → length (big_endian w n) ≡ w
unfolding big_endian
length-big_endian zero n = refl
length-big_endian (suc w) n =
    omega
      (arith, length-append (big_endian w (n / 256)) (n % 256 ∷ []), length-big_endian w (n / 256))

pub big_endian-IsByte : (w n : ℕ) → All IsByte (big_endian w n)
unfolding big_endian
big_endian-IsByte zero n = tt
big_endian-IsByte (suc w) n =
    All-append IsByte (big_endian w (n / 256)) (n % 256 ∷ []) (big_endian-IsByte w (n / 256))
      (omega arith, tt)

pub reverse-le_bytes : (w n : ℕ) → reverse (le_bytes w n) ≡ big_endian w n
unfolding le_bytes big_endian
reverse-le_bytes zero n = refl
reverse-le_bytes (suc w) n = rw (reverse-cons, reverse-le_bytes w (n / 256))

reverse-big_endian : (w n : ℕ) → reverse (big_endian w n) ≡ le_bytes w n
reverse-big_endian w n = rw (← reverse-le_bytes w n, reverse-reverse)

le_bytes-big_endian : (w n : ℕ) → le_bytes w (le_value (big_endian w n)) ≡ big_endian w n
le_bytes-big_endian w n =
    ap (λ k. le_bytes k (le_value (big_endian w n))) (sym (length-big_endian w n))
    ∙ le_bytes-le_value (big_endian w n) (big_endian-IsByte w n)

pub store-to_network :
    (e : Endian) (w n : ℕ) → store e w (to_network_byte_order e w n) ≡ big_endian w n
unfolding store to_network_byte_order
store-to_network little w n = rw (reverse-le_bytes w n, le_bytes-big_endian w n)
store-to_network big w n = reverse-le_bytes w n

-- On a host of either byte order an integer of `w` bytes goes to the wire with its highest byte
-- first, and these bytes make the same integer again, if it is below 256 ^ w.
pub network_order :
    (e : Endian) (w n : ℕ)
    → n < 256 ^ w
    → (store e w (to_network_byte_order e w n) ≡ big_endian w n)
      × (to_host_byte_order e w (load e (big_endian w n)) ≡ n)
unfolding load to_host_byte_order
network_order little w n h = (
  store-to_network little w n,
  rw (le_bytes-big_endian w n, reverse-big_endian w n, le_value-le_bytes w n h),
)
network_order big w n h =
    (store-to_network big w n, rw (reverse-big_endian w n, le_value-le_bytes w n h))

-- The readers and writers of integers differ in their width alone.
RoundTrip-int :
    (w n : ℕ)
    → n < 256 ^ w
    → RoundTrip
        (read w >>= λ bs. pure (to_host_byte_order native_endian w (load native_endian bs)))
        (write (store native_endian w (to_network_byte_order native_endian w n)))
        n
RoundTrip-int w n h =
    let (sent, received) = network_order native_endian w n h in
    rw sent (
      RoundTrip-read_as w (λ bs. to_host_byte_order native_endian w (load native_endian bs))
        (big_endian w n) (length-big_endian w n) received)

load-store_byte : (n : ℕ) → IsByte n → load native_endian (store native_endian 1 n) ≡ n
unfolding load store
load-store_byte n h = le_value-le_bytes 1 n (omega arith)

length-store_byte : (n : ℕ) → length (store native_endian 1 n) ≡ 1
unfolding store
length-store_byte n = length-le_bytes 1 n

pub RoundTrip-byte : (n : ℕ) → IsByte n → RoundTrip read_byte (write_byte n) n
unfolding read_byte write_byte
RoundTrip-byte n h =
    RoundTrip-read_as 1 (λ bs. load native_endian bs) (store native_endian 1 n)
      (length-store_byte n) (load-store_byte n h)

pub RoundTrip-int8 : (n : ℕ) → n < 2 ^ 8 → RoundTrip read_int8 (write_int8 n) n
unfolding read_int8 write_int8
RoundTrip-int8 n h =
    RoundTrip-read_as 1 (λ bs. load native_endian bs) (store native_endian 1 n)
      (length-store_byte n) (load-store_byte n h)

pub RoundTrip-int16 : (n : ℕ) → n < 2 ^ 16 → RoundTrip read_int16 (write_int16 n) n
unfolding read_int16 write_int16
RoundTrip-int16 n h = RoundTrip-int 2 n h

pub RoundTrip-uint32 : (n : ℕ) → n < 2 ^ 32 → RoundTrip read_uint32 (write_uint32 n) n
unfolding read_uint32 write_uint32
RoundTrip-uint32 n h = RoundTrip-int 4 n h

pub RoundTrip-int32 : (n : ℕ) → n < 2 ^ 32 → RoundTrip read_int32 (write_int32 n) n
unfolding read_int32 write_int32
RoundTrip-int32 n h = RoundTrip-int 4 n h

pub RoundTrip-int64 : (n : ℕ) → n < 2 ^ 64 → RoundTrip read_int64 (write_int64 n) n
unfolding read_int64 write_int64
RoundTrip-int64 n h = RoundTrip-int 8 n h

pub RoundTrip-api_key : (n : ℕ) → n < 2 ^ 16 → RoundTrip read_api_key (write_api_key n) n
unfolding read_api_key write_api_key
RoundTrip-api_key n h = RoundTrip-int16 n h
