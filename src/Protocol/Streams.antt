-- ===== src/Protocol/Streams.antt =====
-- The streams of the program behave as the lists of their bytes: ReadableBuffer with the bytes from
-- its index on, FileDescriptor with what the kernel has still to deliver.
use kafka_cpp_server.Prelude.{
  ℕ, zero, suc, ◌+◌, ◌-◌, ◌≤◌, ◌<◌, ◌≡◌, refl, ap, [], ◌∷◌, ◌++◌, length, drop, length-drop,
  drop-drop, length-append, take-append_add, drop-append_add, lt→ltb, le→ltb, le→leb, lt→leb, ne→==,
  ◌∙◌, arith,
}
use native.Mathlib.Decide.{dec_le, dec_lt}
use kafka_cpp_server.Protocol.Types.{Bytes}
use kafka_cpp_server.Protocol.Outcome.{Outcome, ok, throw, undefined, unfinished}
use kafka_cpp_server.Protocol.Stream.{bytes_readable, read}
use kafka_cpp_server.Protocol.Buffers.{ReadableBuffer, read_buffer, buffer_readable}
use kafka_cpp_server.Protocol.FileDescriptor.{
  done, Kernel, FileDescriptor, read_loop, read_fd, fd_readable, prepend,
}
use kafka_cpp_server.Protocol.Simulation.{Refines, IsStream}

abbrev pub InBounds : ReadableBuffer → Type 0
InBounds rb = rb.index ≤ length rb.bytes

abbrev pub unread : ReadableBuffer → Bytes
unread rb = drop rb.index rb.bytes

-- Reading `n` bytes of a buffer with its index in bounds comes to what reading them from the list of
-- its unread bytes comes to: the same bytes with the same left and the index in bounds again, or an
-- exception on both sides, if there are fewer.
pub buffer_agrees :
    (n : ℕ) (rb : ReadableBuffer)
    → InBounds rb
    → Refines InBounds unread (read_buffer n rb) (read n (unread rb))
unfolding read_buffer
buffer_agrees n rb h = elim (dec_le (rb.index + n) (length rb.bytes)) [
  | yes p ↦
      rw
        (
          le→ltb (length rb.bytes) (rb.index + n) p,
          le→leb n (length (unread rb)) (omega (arith, length-drop rb.index rb.bytes)),
        )
        (refl, drop-drop rb.index n rb.bytes, p)
  | no p ↦
      rw
        (
          lt→ltb (length rb.bytes) (rb.index + n) (omega arith),
          lt→leb n (length (unread rb)) (omega (arith, length-drop rb.index rb.bytes)),
        )
        tt
]

-- A buffer whose index is in bounds is the stream of the bytes from there on.
pub buffer-IsStream : IsStream InBounds unread
buffer-IsStream = record { read_refines = λ n. record { at = buffer_agrees n } }

-- What `read(2)` documents, for a descriptor that does not fail: a call hands over some of the bytes
-- that are to come, in their order, at most as many as asked for, and none only at the end.
pub record IsReliable {K : Type 0} ⦃kernel : Kernel K⦄ (pending : K → Bytes) : Type 0 where
  pub delivers :
      (n : ℕ) (k : K)
      → 0 < n
      → (bs : Bytes) × (k' : K) × (kernel.sys_read n k ≡ (done bs, k'))
        × (pending k ≡ bs ++ pending k')
        × (length bs ≤ n)
        × (bs ≡ [] → pending k ≡ [])

-- The first bytes of a stream may be taken apart from those behind them.
read-append :
    (bs rest : Bytes) (m : ℕ) → read (length bs + m) (bs ++ rest) ≡ prepend bs (read m rest)
read-append bs rest m = elim (dec_le m (length rest)) [
  | yes p ↦
      rw
        (
          le→leb m (length rest) p,
          le→leb (length bs + m) (length (bs ++ rest)) (omega (arith, length-append bs rest)),
          take-append_add bs rest m,
          drop-append_add bs rest m,
        )
        refl
  | no p ↦
      rw
        (
          lt→leb m (length rest) (omega arith),
          lt→leb (length bs + m) (length (bs ++ rest)) (omega (arith, length-append bs rest)),
        )
        refl
]

prepend-Refines :
    {S : Type 0} (valid : S → Type 0) (view : S → Bytes) (bs : Bytes) (o : Outcome (Bytes × S))
    (p : Outcome (Bytes × Bytes))
    → Refines valid view o p
    → Refines valid view (prepend bs o) (prepend bs p)
prepend-Refines valid view bs (ok (a, s)) (ok (b, t)) (e, v, h) = (ap (λ l. bs ++ l) e, v, h)
prepend-Refines valid view bs (throw e) (throw x) r = tt
prepend-Refines valid view bs undefined undefined r = tt
prepend-Refines valid view bs unfinished unfinished r = tt
prepend-Refines valid view bs _ _ r = absurd r

-- The bytes that a descriptor has still to deliver. Its state has no invariant.
abbrev pub incoming : {K : Type 0} → (K → Bytes) → FileDescriptor K → Bytes
incoming pending s = pending s.fd

abbrev pub AnyState : {K : Type 0} → FileDescriptor K → Type 0
AnyState s = Unit {0}

module _ {K : Type 0} ⦃kernel : Kernel K⦄ (pending : K → Bytes)
    (reliable : IsReliable pending) where
  nothing_asked :
      (fuel n : ℕ) (s : FileDescriptor K)
      → n ≡ 0
      → Refines AnyState (incoming pending) (read_loop fuel n s) (read n (incoming pending s))
  unfolding read_loop
  nothing_asked zero n s e =
      rw (e, le→leb 0 (length (incoming pending s)) (omega arith)) (refl, refl, tt)
  nothing_asked (suc fuel) n s e =
      rw (e, le→leb 0 (length (incoming pending s)) (omega arith)) (refl, refl, tt)

  -- A round that brings nothing, and one that brings some bytes before the rest of the loop.
  end_of_stream :
      (fuel n : ℕ) (s : FileDescriptor K) {k : K}
      → 0 < n
      → kernel.sys_read n s.fd ≡ (done [], k)
      → incoming pending s ≡ []
      → Refines AnyState (incoming pending) (read_loop (suc fuel) n s) (read n (incoming pending s))
  unfolding read_loop
  end_of_stream fuel n s p e stop =
      rw (e, ne→== n 0 (omega arith), stop, lt→leb n 0 (omega arith)) tt

  some_bytes :
      (fuel n : ℕ) (s : FileDescriptor K) (b : ℕ) (bs : Bytes) (k : K)
      → 0 < n
      → kernel.sys_read n s.fd ≡ (done (b ∷ bs), k)
      → read n (incoming pending s) ≡ prepend (b ∷ bs) (read (n - length (b ∷ bs)) (pending k))
      → Refines AnyState
          (incoming pending)
          (read_loop fuel (n - length (b ∷ bs)) (record { fd = k }))
          (read (n - length (b ∷ bs)) (pending k))
      → Refines AnyState (incoming pending) (read_loop (suc fuel) n s) (read n (incoming pending s))
  unfolding read_loop
  some_bytes fuel n s b bs k p e split later =
      rw (split, e, ne→== n 0 (omega arith))
        (prepend-Refines AnyState (incoming pending) (b ∷ bs) _ _ later)

  split_read :
      (n : ℕ) (s : FileDescriptor K) (bs : Bytes) (k : K)
      → incoming pending s ≡ bs ++ pending k
      → length bs ≤ n
      → read n (incoming pending s) ≡ prepend bs (read (n - length bs) (pending k))
  split_read n s bs k e h =
      ap (λ l. read n l) e
      ∙ ap (λ (j : ℕ). read j (bs ++ pending k)) (omega arith)
      ∙ read-append bs (pending k) (n - length bs)

  round_agrees :
      (fuel n : ℕ) (s : FileDescriptor K)
      → 0 < n
      → (bs : Bytes) (k : K) → kernel.sys_read n s.fd ≡ (done bs, k)
      → incoming pending s ≡ bs ++ pending k
      → length bs ≤ n
      → (bs ≡ [] → incoming pending s ≡ [])
      → ((m : ℕ) (t : FileDescriptor K)
          → m ≤ fuel
          → Refines AnyState (incoming pending) (read_loop fuel m t) (read m (incoming pending t)))
      → n ≤ suc fuel
      → Refines AnyState (incoming pending) (read_loop (suc fuel) n s) (read n (incoming pending s))
  round_agrees fuel n s p [] k e split fits stop later h = end_of_stream fuel n s p e (stop refl)
  round_agrees fuel n s p (b ∷ bs) k e split fits stop later h =
      some_bytes fuel n s b bs k p e (split_read n s (b ∷ bs) k split fits)
        (later (n - length (b ∷ bs)) (record { fd = k }) (omega arith))

  loop_agrees :
      (fuel n : ℕ) (s : FileDescriptor K)
      → n ≤ fuel
      → Refines AnyState (incoming pending) (read_loop fuel n s) (read n (incoming pending s))
  loop_agrees zero n s h = nothing_asked zero n s (omega arith)
  loop_agrees (suc fuel) n s h = elim (dec_lt 0 n) [
    | yes p ↦
        let (bs, k, e, split, fits, stop) = reliable.delivers n s.fd p in
        round_agrees fuel n s p bs k e split fits stop (loop_agrees fuel) h
    | no p ↦ nothing_asked (suc fuel) n s (omega arith)
  ]

  -- On a descriptor of a kernel that follows `IsReliable`, reading `n` bytes comes to what reading
  -- them from the list of the bytes to come does, however the kernel splits these: the same bytes
  -- with the same left, or an exception on both sides, if there are fewer. The loop has come to an
  -- end within its fuel.
  pub read_fd_agrees :
      (n : ℕ) (s : FileDescriptor K)
      → Refines AnyState (incoming pending) (read_fd n s) (read n (incoming pending s))
  unfolding read_fd
  read_fd_agrees n s = loop_agrees n n s (omega arith)

  pub fd-IsStream : IsStream AnyState (incoming pending)
  fd-IsStream = record { read_refines = λ n. record { at = λ s h. read_fd_agrees n s } }
