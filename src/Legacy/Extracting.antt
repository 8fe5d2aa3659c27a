-- ===== src/Legacy/Extracting.antt =====
-- What `processRequest` takes of a request, and the response that it makes.
use kafka_cpp_server.Prelude.{
  ℕ, ◌+◌, ◌%◌, ◌^◌, ◌≤◌, ◌<◌, ◌≡◌, refl, ap, ◌∙◌, [], ◌++◌, append_assoc, length, length-append,
  take, drop, take-append, drop-append, le→leb, le→ltb, arith,
}
use kafka_cpp_server.Protocol.Types.{Bytes, Int16, Int32}
use kafka_cpp_server.Protocol.Outcome.{ok, ◌>>=◌, from_outcome}
use kafka_cpp_server.Protocol.ByteOrder.{native_endian, load}
use kafka_cpp_server.Protocol.Integers.{big_endian, length-big_endian, network_order}
use kafka_cpp_server.Legacy.Buffer.{
  Buffer, new_buffer, convert, copy_out, converted, extract_int_from_buffer, zero_if_thrown,
  extract_api_key, extract_api_version, extract_correlation_id,
}
use kafka_cpp_server.Legacy.TcpServer.{max_buffer_size, set_message_size, make_response, received}
use kafka_cpp_server.Legacy.Answering.{copy_in-append, answer_bytes, append_answer-bytes}

-- A request message as far as the server looks at it: four bytes of size, the key, the version and
-- the correlation id, and more.
pub record Request : Type 0 where
  pub size : Bytes
  pub api_key : Int16
  pub api_version : Int16
  pub correlation_id : Int32
  pub more : Bytes

pub record IsRequest (q : Request) : Type 0 where
  pub size_fits : length q.size ≡ 4
  pub api_key_fits : q.api_key < 2 ^ 16
  pub api_version_fits : q.api_version < 2 ^ 16
  pub correlation_id_fits : q.correlation_id < 2 ^ 32

abbrev pub request_bytes : Request → Bytes
request_bytes q =
    q.size
    ++ big_endian 2 q.api_key
    ++ big_endian 2 q.api_version
    ++ big_endian 4 q.correlation_id
    ++ q.more

taken :
    (size offset : ℕ) (before block after : Bytes)
    → length before ≡ offset
    → length block ≡ size
    → take size (drop offset (before ++ block ++ after)) ≡ block
taken size offset before block after h k = rw (
  ← h,
  ← k,
  append_assoc before block after,
  drop-append before (block ++ after),
  take-append block after,
)

long_enough :
    (size offset : ℕ) (before block after : Bytes)
    → length before ≡ offset
    → length block ≡ size
    → offset + size ≤ length (before ++ block ++ after)
long_enough size offset before block after h k =
    omega (arith, length-append (before ++ block) after, length-append before block)

in_buffer :
    (size offset n : ℕ) (before after : Bytes) (b : Buffer)
    → length before ≡ offset
    → offset + size < 2 ^ 64
    → b.buffer ≡ before ++ big_endian size n ++ after
    → extract_int_from_buffer size offset b
      ≡ ok (convert size (load native_endian (big_endian size n)))
unfolding extract_int_from_buffer copy_out converted
in_buffer size offset n before after b at small e =
    let enough =
      long_enough size offset before (big_endian size n) after at (length-big_endian size n) in
    rw (
      e,
      in_range (offset + size) small,
      le→ltb _ _ enough,
      le→leb _ _ enough,
      taken size offset before (big_endian size n) after at (length-big_endian size n),
    )
  where
    in_range : (n : ℕ) → n < 2 ^ 64 → n % 2 ^ 64 ≡ n
    in_range n k = omega arith

-- An integer that stands in the buffer is extracted.
extract-int16 :
    (offset n : ℕ) (before after : Bytes) (b : Buffer)
    → length before ≡ offset
    → offset < 2 ^ 32
    → n < 2 ^ 16
    → b.buffer ≡ before ++ big_endian 2 n ++ after
    → extract_int_from_buffer 2 offset b ≡ ok n
unfolding convert
extract-int16 offset n before after b at small fits e =
    in_buffer 2 offset n before after b at (omega arith) e
    ∙ ap ok (network_order native_endian 2 n fits).1

extract-int32 :
    (offset n : ℕ) (before after : Bytes) (b : Buffer)
    → length before ≡ offset
    → offset < 2 ^ 32
    → n < 2 ^ 32
    → b.buffer ≡ before ++ big_endian 4 n ++ after
    → extract_int_from_buffer 4 offset b ≡ ok n
unfolding convert
extract-int32 offset n before after b at small fits e =
    in_buffer 4 offset n before after b at (omega arith) e
    ∙ ap ok (network_order native_endian 4 n fits).1

-- The vector of the buffer, with what `recv` has put to its front.
pub received-bytes :
    (bytes : Bytes)
    → (received bytes).buffer ≡ bytes ++ drop (length bytes) (new_buffer max_buffer_size).buffer
unfolding received
received-bytes bytes = copy_in-append 0 [] bytes (new_buffer max_buffer_size).buffer refl

module _ (s k v c m r : Bytes) where
  behind_size : s ++ k ++ v ++ c ++ m ++ r ≡ s ++ k ++ (v ++ c ++ m ++ r)
  behind_size = simp append_assoc refl

  behind_key : s ++ k ++ v ++ c ++ m ++ r ≡ (s ++ k) ++ v ++ (c ++ m ++ r)
  behind_key = simp append_assoc refl

  behind_version : s ++ k ++ v ++ c ++ m ++ r ≡ (s ++ k ++ v) ++ c ++ (m ++ r)
  behind_version = simp append_assoc refl

module _ (q : Request) (h : IsRequest q) (b : Buffer) (rest : Bytes)
    (e : b.buffer ≡ request_bytes q ++ rest) where
  key_read : extract_api_key 4 b ≡ ok q.api_key
  unfolding extract_api_key zero_if_thrown
  key_read = ap zero_if_thrown (
      extract-int16 4 q.api_key q.size
        (big_endian 2 q.api_version ++ big_endian 4 q.correlation_id ++ q.more ++ rest) b
        h.size_fits (omega arith) h.api_key_fits (e ∙ behind_size q.size _ _ _ q.more rest))

  version_read : extract_api_version 6 b ≡ ok q.api_version
  unfolding extract_api_version zero_if_thrown
  version_read = ap zero_if_thrown (
      extract-int16 6 q.api_version (q.size ++ big_endian 2 q.api_key)
        (big_endian 4 q.correlation_id ++ q.more ++ rest) b
        (omega (
          arith,
          length-append q.size (big_endian 2 q.api_key),
          h.size_fits,
          length-big_endian 2 q.api_key,
        ))
        (omega arith) h.api_version_fits (e ∙ behind_key q.size _ _ _ q.more rest))

  correlation_id_read : extract_correlation_id 8 b ≡ ok q.correlation_id
  unfolding extract_correlation_id zero_if_thrown
  correlation_id_read = ap zero_if_thrown (
      extract-int32 8 q.correlation_id
        (q.size ++ big_endian 2 q.api_key ++ big_endian 2 q.api_version) (q.more ++ rest) b
        (omega (
          arith,
          length-append (q.size ++ big_endian 2 q.api_key) (big_endian 2 q.api_version),
          length-append q.size (big_endian 2 q.api_key),
          h.size_fits,
          length-big_endian 2 q.api_key,
          length-big_endian 2 q.api_version,
        ))
        (omega arith) h.correlation_id_fits (e ∙ behind_version q.size _ _ _ q.more rest))

  pub response_made :
      (n : ℕ)
      → make_response b n
        ≡ ok (record {
          message_size = (4 + length (answer_bytes q.api_key q.api_version)) % 2 ^ 32;
          correlation_id = q.correlation_id;
          body = answer_bytes q.api_key q.api_version;
        })
  unfolding make_response set_message_size from_outcome ◌>>=◌
  response_made n =
      rw
        (
          key_read,
          version_read,
          correlation_id_read,
          append_answer-bytes q.api_key q.api_version n q.correlation_id,
        )
        refl
