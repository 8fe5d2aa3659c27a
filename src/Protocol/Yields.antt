-- ===== src/Protocol/Yields.antt =====
-- What the readers of Reading return from a list of bytes lies in the range of its type.
use kafka_cpp_server.Prelude.{
  ℕ, zero, suc, ◌-◌, ◌/◌, ◌%◌, ◌^◌, ◌+◌, ◌<◌, ◌≤◌, ◌≡◌, ◌≢◌, refl, List, [], ◌∷◌, Bool, true, false,
  length, take, drop, length-take, All, All-take, All-drop, ◌==◌, ltb, leb, bit_and, if◌then◌else◌,
  ◌$◌, arith,
}
use mathlib.Core.Path.{subst}
use kafka_cpp_server.Protocol.Types.{Bytes, IsByte, is_negative}
use kafka_cpp_server.Protocol.Outcome.{Exception, Outcome, Io, ok, throw}
use kafka_cpp_server.Protocol.Gives.{
  Gives, returned, Gives-pure, Gives-undefined, Gives-out_of_fuel, Gives-if, Gives-bind, Gives-map,
  Gives-weaken,
}
use kafka_cpp_server.Protocol.Stream.{read, bytes_readable}
use kafka_cpp_server.Protocol.ByteOrder.{
  native_endian, load, byteswap, le_bytes, le_value, to_host_byte_order,
}
use kafka_cpp_server.Protocol.Reading.{
  read_byte, read_int8, read_int16, read_int32, read_uint32, read_int64, read_unsigned_varlong_loop,
  read_unsigned_varlong, read_varlong, read_varint, read_unsigned_varint, read_compact_string,
  read_uuid, read_objects, read_array, unzigzag,
}

-- Whatever the reader returns from bytes satisfies `P`.
abbrev pub Yields : {A : Type 0} → (A → Type 0) → Io Bytes A → Type 0
Yields P m = Gives (All IsByte) P m

abbrev pub IsBlock : ℕ → Bytes → Type 0
IsBlock n bs = (length bs ≡ n) × All IsByte bs

leb→le : (a b : ℕ) → leb a b ≡ true → a ≤ b
leb→le a b h = ground arith

pub leb→gt : (a b : ℕ) → leb a b ≡ false → b < a
leb→gt a b h = ground arith

taken-IsBlock :
    (n : ℕ) (s : Bytes) (enough : Bool) (x : Exception) {bs t : Bytes}
    → leb n (length s) ≡ enough
    → All IsByte s
    → ◌≡◌ {A = Outcome (Bytes × Bytes)}
        (if enough then ok (take n s, drop n s) else throw x)
        (ok (bs, t))
    → IsBlock n bs × All IsByte t
taken-IsBlock n s true x h v e =
    let (same, left) = returned e in
    (
      subst (IsBlock n) same (length-take n s (leb→le n (length s) h), All-take IsByte n s v),
      subst (All IsByte) left (All-drop IsByte n s v),
    )
taken-IsBlock n s false x h v e = cc

pub Yields-read : (n : ℕ) → Yields (IsBlock n) (read n)
Yields-read n = record { gives = λ s b t v e. taken-IsBlock n s (leb n (length s)) _ refl v e }

one_byte : (bs : Bytes) → IsBlock 1 bs → load native_endian bs < 2 ^ 8
unfolding load le_value
one_byte [] (h, v) = absurd (omega arith)
one_byte (b ∷ []) (h, (v, _)) = omega arith
one_byte (b ∷ c ∷ bs) (h, v) = absurd (omega arith)

host_2 : (n : ℕ) → to_host_byte_order native_endian 2 n < 2 ^ 16
unfolding to_host_byte_order byteswap le_value le_bytes
host_2 n = omega arith

host_4 : (n : ℕ) → to_host_byte_order native_endian 4 n < 2 ^ 32
unfolding to_host_byte_order byteswap le_value le_bytes
host_4 n = omega arith

host_8 : (n : ℕ) → to_host_byte_order native_endian 8 n < 2 ^ 64
unfolding to_host_byte_order byteswap le_value le_bytes
host_8 n = omega arith

-- An integer of `w` bits.
abbrev pub Fits : ℕ → ℕ → Type 0
Fits w n = n < 2 ^ w

pub Yields-byte : Yields (Fits 8) read_byte
unfolding read_byte
Yields-byte = Gives-map (IsBlock 1) (Fits 8) (read 1) _ (Yields-read 1) one_byte

pub Yields-int8 : Yields (Fits 8) read_int8
unfolding read_int8
Yields-int8 = Gives-map (IsBlock 1) (Fits 8) (read 1) _ (Yields-read 1) one_byte

pub Yields-int16 : Yields (Fits 16) read_int16
unfolding read_int16
Yields-int16 = Gives-map (IsBlock 2) (Fits 16) (read 2) _ (Yields-read 2) (λ bs h. host_2 _)

pub Yields-uint32 : Yields (Fits 32) read_uint32
unfolding read_uint32
Yields-uint32 = Gives-map (IsBlock 4) (Fits 32) (read 4) _ (Yields-read 4) (λ bs h. host_4 _)

pub Yields-int32 : Yields (Fits 32) read_int32
unfolding read_int32
Yields-int32 = Yields-uint32

pub Yields-int64 : Yields (Fits 64) read_int64
unfolding read_int64
Yields-int64 = Gives-map (IsBlock 8) (Fits 64) (read 8) _ (Yields-read 8) (λ bs h. host_8 _)

Yields-unsigned_varlong_loop :
    (rounds n i : ℕ) → Yields (Fits 64) (read_unsigned_varlong_loop rounds n i)
unfolding read_unsigned_varlong_loop
Yields-unsigned_varlong_loop zero n i = Gives-out_of_fuel (Fits 64)
Yields-unsigned_varlong_loop (suc rounds) n i =
    Gives-bind (Fits 8) (Fits 64) _ _ Yields-byte $ λ c h.
    Gives-if (Fits 64) (ltb i 64) _ _
      (λ _.
        Gives-if (Fits 64) (bit_and c 0x80 == 0) _ _ (λ _. Gives-pure (Fits 64) _ (omega arith))
          (λ _. Yields-unsigned_varlong_loop rounds _ _))
      (λ _. Gives-undefined (Fits 64))

pub Yields-unsigned_varlong : Yields (Fits 64) read_unsigned_varlong
unfolding read_unsigned_varlong
Yields-unsigned_varlong = Yields-unsigned_varlong_loop 11 0 0

-- The smallest VARLONG is never returned.
abbrev pub IsVarLong : ℕ → Type 0
IsVarLong n = Fits 64 n × (n ≢ 2 ^ 63)

unzigzag-IsVarLong : (n : ℕ) → Fits 64 n → IsVarLong (unzigzag n)
unfolding unzigzag
unzigzag-IsVarLong n h = go (bit_and n 1 == 0)
  where
    go :
        (even : Bool) → IsVarLong (if even then n / 2 else (2 ^ 64 - (n + 1) % 2 ^ 64 / 2) % 2 ^ 64)
    go true = (omega arith, λ e. absurd (omega arith))
    go false = (omega arith, λ e. absurd (omega arith))

pub Yields-varlong : Yields IsVarLong read_varlong
unfolding read_varlong
Yields-varlong = Gives-map (Fits 64) IsVarLong _ _ Yields-unsigned_varlong unzigzag-IsVarLong

pub Yields-varint : Yields (Fits 32) read_varint
unfolding read_varint
Yields-varint = Gives-map IsVarLong (Fits 32) _ _ Yields-varlong (λ n h. omega arith)

Yields-unsigned_varint : Yields (Fits 32) read_unsigned_varint
unfolding read_unsigned_varint
Yields-unsigned_varint =
    Gives-map (Fits 64) (Fits 32) _ _ Yields-unsigned_varlong (λ n h. omega arith)

pub Yields-compact_string : Yields (All IsByte) read_compact_string
unfolding read_compact_string
Yields-compact_string = Gives-bind (Fits 32) (All IsByte) _ _ Yields-unsigned_varint $ λ n h.
    Gives-if (All IsByte) (n == 0) _ _ (λ _. Gives-pure (All IsByte) [] tt)
      (λ _. Gives-weaken (IsBlock (n - 1)) (All IsByte) _ (Yields-read (n - 1)) (λ bs (_, h). h))

pub Yields-uuid : Yields (IsBlock 16) read_uuid
unfolding read_uuid
Yields-uuid = Yields-read 16

module _ {T : Type 0} (P : T → Type 0) (reader : Io Bytes T) (object : Yields P reader) where
  Yields-objects : (n : ℕ) → Yields (λ ts. (length ts ≡ n) × All P ts) (read_objects reader n)
  unfolding read_objects
  Yields-objects zero = Gives-pure _ [] (refl, tt)
  Yields-objects (suc n) = Gives-bind P _ _ _ object $ λ t p.
      Gives-map _ _ _ _ (Yields-objects n) (λ ts (e, h). (omega arith, (p, h)))

  counted : (n : ℕ) (ts : List T) → is_negative 32 n ≡ false → length ts ≡ n → length ts < 2 ^ 31
  counted n ts e same = omega (arith, leb→gt (2 ^ 31) n e)

  -- The count is not negative.
  abbrev pub IsArray : List T → Type 0
  IsArray ts = (length ts < 2 ^ 31) × All P ts

  pub Yields-IsArray : Yields IsArray (read_array reader)
  unfolding read_array
  Yields-IsArray = Gives-bind (Fits 32) IsArray _ _ Yields-int32 $ λ n h.
      Gives-if IsArray (is_negative 32 n) _ _ (λ _. Gives-pure IsArray [] (omega arith, tt))
        (λ e.
          Gives-weaken _ IsArray _ (Yields-objects n)
            (λ ts (same, all). (counted n ts e same, all)))
