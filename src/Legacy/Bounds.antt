-- ===== src/Legacy/Bounds.antt =====
-- `extractIntFromBuffer` stays in the buffer, and takes an integer in the network's byte order.
use kafka_cpp_server.Prelude.{
  ℕ, ◌+◌, ◌%◌, ◌^◌, ◌≤◌, ◌<◌, ◌≡◌, ap, sym, ◌∙◌, ◌⊎◌, inl, inr, [], ◌∷◌, reverse, reverse-reverse,
  length, length-take, length-drop, length-reverse, take, drop, All, All-take, All-drop,
  All-reverse, le→leb, lt→ltb, le→ltb, arith,
}
use native.Mathlib.Decide.{dec_lt}
use kafka_cpp_server.Protocol.Types.{Bytes, IsByte}
use kafka_cpp_server.Protocol.Outcome.{ok, throw, runtime_error}
use kafka_cpp_server.Protocol.ByteOrder.{
  native_endian, load, byteswap, le_bytes, le_value, to_host_byte_order,
}
use kafka_cpp_server.Protocol.Integers.{big_endian, le_bytes-le_value, reverse-le_bytes}
use kafka_cpp_server.Legacy.Buffer.{Buffer, convert, copy_out, converted, extract_int_from_buffer}

-- The sizes of the integer types.
abbrev pub IsSize : ℕ → Type 0
IsSize size = (size ≡ 1) ⊎ (size ≡ 2) ⊎ (size ≡ 4) ⊎ (size ≡ 8)

reverse_value : (bs : Bytes) → All IsByte bs → big_endian (length bs) (le_value (reverse bs)) ≡ bs
reverse_value bs h =
    sym (reverse-le_bytes (length bs) (le_value (reverse bs)))
    ∙ ap (λ (k : ℕ). reverse (le_bytes k (le_value (reverse bs)))) (sym (length-reverse bs))
    ∙ ap reverse (le_bytes-le_value (reverse bs) (All-reverse IsByte bs h))
    ∙ reverse-reverse bs

-- Bytes are those of the integer that they are taken for.
big_endian-host :
    (w : ℕ) (bs : Bytes)
    → length bs ≡ w
    → All IsByte bs
    → big_endian w (to_host_byte_order native_endian w (load native_endian bs)) ≡ bs
unfolding to_host_byte_order load byteswap
big_endian-host w bs e h = rw (← e, le_bytes-le_value bs h) (reverse_value bs h)

one_byte : (bs : Bytes) → length bs ≡ 1 → All IsByte bs → big_endian 1 (load native_endian bs) ≡ bs
unfolding load big_endian le_value
one_byte [] e h = absurd (omega arith)
one_byte (b ∷ []) e (h, _) = ap (λ (x : ℕ). x ∷ []) (omega arith)
one_byte (b ∷ c ∷ bs) e h = absurd (omega arith)

big_endian-convert :
    (size : ℕ) (bs : Bytes)
    → IsSize size
    → length bs ≡ size
    → All IsByte bs
    → big_endian size (convert size (load native_endian bs)) ≡ bs
unfolding convert
big_endian-convert size bs (inl one) e h = rw one (one_byte bs (e ∙ one) h)
big_endian-convert size bs (inr (inl two)) e h = rw two (big_endian-host 2 bs (e ∙ two) h)
big_endian-convert size bs (inr (inr (inl four))) e h = rw four (big_endian-host 4 bs (e ∙ four) h)
big_endian-convert size bs (inr (inr (inr eight))) e h =
    rw eight (big_endian-host 8 bs (e ∙ eight) h)

-- With an offset whose end a `size_t` holds, `extractIntFromBuffer` throws if the integer is not all in the buffer,
-- and else it returns the integer of which these bytes are the big-endian ones.
pub extract_int_from_buffer_lem :
    (size offset : ℕ) (b : Buffer)
    → IsSize size
    → offset + size < 2 ^ 64
    → All IsByte b.buffer
    → ((length b.buffer < offset + size)
        × (extract_int_from_buffer size offset b
            ≡ throw (runtime_error "Buffer is too small for the requested integer.")))
      ⊎ ((offset + size ≤ length b.buffer)
          × (n : ℕ) × (extract_int_from_buffer size offset b ≡ ok n)
          × (take size (drop offset b.buffer) ≡ big_endian size n))
unfolding extract_int_from_buffer copy_out converted
extract_int_from_buffer_lem size offset b integral fits h =
    elim (dec_lt (length b.buffer) (offset + size)) [
      | yes short ↦ inl (short, rw (in_range (offset + size) fits, lt→ltb _ _ short))
      | no long ↦ inr (
        omega arith,
        convert size (load native_endian (take size (drop offset b.buffer))),
        rw (
          in_range (offset + size) fits,
          le→ltb _ _ (not_below long),
          le→leb _ _ (not_below long),
        ),
        sym (
            big_endian-convert size (take size (drop offset b.buffer)) integral
              (length-take size (drop offset b.buffer) (left offset size (not_below long)))
              (All-take IsByte size _ (All-drop IsByte offset b.buffer h))),
      )
    ]
  where
    in_range : (n : ℕ) → n < 2 ^ 64 → n % 2 ^ 64 ≡ n
    in_range n k = omega arith

    not_below : {m n : ℕ} → ¬ (m < n) → n ≤ m
    not_below k = omega arith

    left :
        (offset size : ℕ) → offset + size ≤ length b.buffer → size ≤ length (drop offset b.buffer)
    left offset size k = omega (arith, length-drop offset b.buffer)
