-- ===== src/Legacy/Answering.antt =====
-- What a response of the first server is on the wire: `serialize`, and the body that `processRequest`
-- gives to it.
use kafka_cpp_server.Prelude.{
  ℕ, zero, suc, ◌+◌, ◌^◌, ◌≤◌, ◌<◌, ◌≡◌, refl, ap, ◌∙◌, inl, inr, [], ◌∷◌, ◌++◌, append-nil, true,
  false, Bool-cases, length, length-append, drop, take-append, drop-append_add, length-drop, leb,
  ltb, ◌||◌, lt→leb, le→leb, ◌==◌, if◌then◌else◌, arith,
}
use native.Mathlib.Decide.{dec_lt}
use kafka_cpp_server.Protocol.Types.{Bytes, Int16, Int32}
use kafka_cpp_server.Protocol.Outcome.{ok, ◌>>=◌, pure}
use kafka_cpp_server.Protocol.ByteOrder.{
  native_endian, to_host_byte_order, store, to_network_byte_order, byteswap, le_bytes, le_value,
}
use kafka_cpp_server.Protocol.Integers.{big_endian, length-big_endian, store-to_network}
use kafka_cpp_server.Legacy.ErrorCode.{underlying}
use kafka_cpp_server.Legacy.Buffer.{zeros, convert}
use kafka_cpp_server.Legacy.KafkaResponse.{
  KafkaResponse, copy_in, serialize, append_bytes, append_to_body, append_var_int_loop,
  append_var_int, append_api_version, append_error_code,
}
use kafka_cpp_server.Legacy.TcpServer.{append_answer}

length-zeros : (n : ℕ) → length (zeros n) ≡ n
unfolding zeros
length-zeros zero = refl
length-zeros (suc n) = ap suc (length-zeros n)

drop_all : (n : ℕ) (xs : Bytes) → length xs ≤ n → drop n xs ≡ []
drop_all zero [] h = refl
drop_all zero (x ∷ xs) h = absurd (omega arith)
drop_all (suc n) [] h = refl
drop_all (suc n) (x ∷ xs) h = drop_all n xs (omega arith)

-- A copy behind what has been copied already.
pub copy_in-append :
    (off : ℕ) (before src after : Bytes)
    → length before ≡ off
    → copy_in off src (before ++ after) ≡ before ++ src ++ drop (length src) after
unfolding copy_in
copy_in-append off before src after h =
    rw (← h, take-append before after, drop-append_add before after (length src))

-- The three copies fill the vector.
pub serialize-bytes :
    (r : KafkaResponse)
    → serialize r ≡ big_endian 4 r.message_size ++ big_endian 4 r.correlation_id ++ r.body
unfolding serialize
serialize-bytes r =
    rw
      (
        store-to_network native_endian 4 r.message_size,
        store-to_network native_endian 4 r.correlation_id,
      )
      (filled (big_endian 4 r.message_size) (big_endian 4 r.correlation_id) r.body
        (zeros (4 + 4 + length r.body)) (length-big_endian 4 r.message_size)
        (length-big_endian 4 r.correlation_id) (length-zeros (4 + 4 + length r.body)))
  where
    filled :
        (a b c z : Bytes)
        → length a ≡ 4
        → length b ≡ 4
        → length z ≡ 4 + 4 + length c
        → copy_in 8 c (copy_in 4 b (copy_in 0 a z)) ≡ a ++ b ++ c
    filled a b c z ha hb hz =
        ap (λ l. copy_in 8 c (copy_in 4 b l)) (copy_in-append 0 [] a z refl)
        ∙ ap (copy_in 8 c) (copy_in-append 4 a b (drop (length a) z) ha)
        ∙ copy_in-append 8 (a ++ b) c (drop (length b) (drop (length a) z))
            (omega (arith, length-append a b))
        ∙ rw
            (
              drop_all (length c) (drop (length b) (drop (length a) z)) (
                  omega
                    (arith, length-drop (length a) z, length-drop (length b) (drop (length a) z))),
              append-nil,
            )
            refl

-- The bytes of the body: the error code to a request of ApiVersions alone, and the two keys.
abbrev pub answer_bytes : Int16 → Int16 → Bytes
answer_bytes api_key api_version =
    (if api_key == 18 then (if leb api_version 4 then 0 ∷ 0 ∷ [] else 0 ∷ 35 ∷ []) else [])
    ++ 3 ∷ 0 ∷ 18 ∷ 0 ∷ 0 ∷ 0 ∷ 4 ∷ 0 ∷ 0 ∷ 75 ∷ 0 ∷ 0 ∷ 0 ∷ 0 ∷ 0 ∷ 0 ∷ 0 ∷ 0 ∷ 0 ∷ 0 ∷ []

above_four : (v : ℕ) → 4 < v → (leb (2 ^ 15) v || ltb 4 v) ≡ true
above_four v h = ground arith

up_to_four : (v : ℕ) → v ≤ 4 → (leb (2 ^ 15) v || ltb 4 v) ≡ false
up_to_four v h = ground arith

module _ (api_key api_version : ℕ) (size id : Int32) where
  pub append_answer-bytes :
      append_answer api_key api_version
        (record { message_size = size; correlation_id = id; body = [] })
      ≡ ok (
        tt,
        record {
          message_size = size;
          correlation_id = id;
          body = answer_bytes api_key api_version;
        },
      )
  unfolding append_answer append_error_code append_var_int append_var_int_loop append_api_version
      append_to_body append_bytes convert underlying ◌>>=◌ pure store to_network_byte_order
      to_host_byte_order byteswap le_bytes le_value
  append_answer-bytes = elim (Bool-cases (api_key == 18)) [
    | inr other ↦ rw other refl
    | inl versions ↦ elim (dec_lt 4 api_version) [
      | yes above ↦ rw (versions, above_four api_version above, lt→leb api_version 4 above) refl
      | no fine ↦
          rw (versions, up_to_four api_version (omega arith), le→leb api_version 4 (omega arith))
            refl
    ]
  ]
