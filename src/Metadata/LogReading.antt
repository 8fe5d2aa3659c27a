-- ===== src/Metadata/LogReading.antt =====
-- What `read_record_batches` makes of a log: the batches that were written to it, up to the first
-- one that cannot be read.
use kafka_cpp_server.Prelude.{
  ℕ, zero, suc, ◌<◌, ◌≡◌, refl, ap, sym, ◌∙◌, List, [], ◌∷◌, ◌++◌, append_assoc, append-nil, length,
  All, arith,
}
use kafka_cpp_server.Protocol.Types.{Bytes}
use kafka_cpp_server.Protocol.Outcome.{
  Exception, Outcome, ok, throw, undefined, unfinished, ◌>>=◌, pure,
}
use kafka_cpp_server.Protocol.Stream.{Readable, bytes_readable, bytes_writable}
use kafka_cpp_server.Protocol.Writing.{write_objects}
use kafka_cpp_server.Protocol.Simulation.{Refines, IsStream}
use kafka_cpp_server.Metadata.Records.{RecordBatch, read_record_batch, write_record_batch}
use kafka_cpp_server.Metadata.RecordsRoundTrip.{IsRecordBatch, RoundTrip-record_batch}
use kafka_cpp_server.Metadata.Readers.{Simulates-record_batch}
use kafka_cpp_server.Metadata.Log.{read_batches_loop}

-- The bytes of a log that holds the batches.
abbrev pub log_bytes : (batches : List RecordBatch) → All IsRecordBatch batches → Bytes
log_bytes [] h = []
log_bytes (b ∷ bs) (p, h) = (RoundTrip-record_batch b p).wire ++ log_bytes bs h

write_objects-log_bytes :
    (batches : List RecordBatch) (h : All IsRecordBatch batches) (s : Bytes)
    → write_objects write_record_batch batches s ≡ ok (tt, s ++ log_bytes batches h)
unfolding write_objects pure ◌>>=◌
write_objects-log_bytes [] h s = ap (λ t. ok (tt, t)) (sym (append-nil s))
write_objects-log_bytes (b ∷ bs) (p, h) s =
    rw ((RoundTrip-record_batch b p).writes, write_objects-log_bytes bs h, append_assoc)

bytes_loop :
    (batches : List RecordBatch) (h : All IsRecordBatch batches) (tail : Bytes) {e : Exception}
    → read_record_batch tail ≡ throw e
    → (fuel : ℕ) (read_before : List RecordBatch) → length batches < fuel
    → read_batches_loop fuel read_before (log_bytes batches h ++ tail) ≡ ok (read_before ++ batches)
unfolding read_batches_loop
bytes_loop [] h tail cut zero read_before k = absurd (omega arith)
bytes_loop [] h tail cut (suc fuel) read_before k = rw (read_batches_loop, cut, append-nil)
bytes_loop (b ∷ bs) (p, h) tail cut zero read_before k = absurd (omega arith)
bytes_loop (b ∷ bs) (p, h) tail cut (suc fuel) read_before k = rw (
  append_assoc,
  read_batches_loop,
  (RoundTrip-record_batch b p).reads,
  bytes_loop bs h tail cut fuel (read_before ++ b ∷ []) (omega arith),
  append_assoc,
)

module _ {S : Type 0} ⦃r : Readable S⦄ (valid : S → Type 0) (view : S → Bytes)
    (stream : IsStream valid view) where
  one_round :
      (fuel : ℕ) (read_before : List RecordBatch) (o : Outcome (RecordBatch × S))
      (p : Outcome (RecordBatch × Bytes)) (s : S)
      → read_record_batch s ≡ o
      → read_record_batch (view s) ≡ p
      → Refines valid view o p
      → ((acc : List RecordBatch) (t : S)
          → valid t
          → read_batches_loop fuel acc t ≡ read_batches_loop fuel acc (view t))
      → read_batches_loop (suc fuel) read_before s
        ≡ read_batches_loop (suc fuel) read_before (view s)
  unfolding read_batches_loop
  one_round fuel read_before (ok (a, t)) (ok (b, u)) s e f (same, left, v) later =
      rw (read_batches_loop, e, f, later _ t v, same, left)
  one_round fuel read_before (throw x) (throw y) s e f refines later = rw (read_batches_loop, e, f)
  one_round fuel read_before undefined undefined s e f refines later = rw (read_batches_loop, e, f)
  one_round fuel read_before unfinished unfinished s e f refines later =
      rw (read_batches_loop, e, f)
  one_round fuel read_before _ _ s e f refines later = absurd refines

  pub stream_loop :
      (fuel : ℕ) (read_before : List RecordBatch) (s : S)
      → valid s
      → read_batches_loop fuel read_before s ≡ read_batches_loop fuel read_before (view s)
  unfolding read_batches_loop
  stream_loop zero read_before s v = refl
  stream_loop (suc fuel) read_before s v =
      one_round fuel read_before _ _ s refl refl ((Simulates-record_batch valid view stream).at s v)
        (stream_loop fuel)

-- Record batches with fields in their ranges are written without an exception, as some bytes behind
-- what stands there. From a stream that holds these bytes and behind them a tail that cannot be read
-- as a batch, such as one that is cut off, the loop returns just these batches in their order, given
-- more fuel than there are batches.
pub log_read_back :
    (batches : List RecordBatch) (h : All IsRecordBatch batches) (before : Bytes) {S : Type 0}
    ⦃r : Readable S⦄ (valid : S → Type 0) (view : S → Bytes) (s : S) (tail : Bytes) {e : Exception}
    (fuel : ℕ)
    → IsStream valid view
    → valid s
    → view s ≡ log_bytes batches h ++ tail
    → read_record_batch tail ≡ throw e
    → length batches < fuel
    → (write_objects write_record_batch batches before ≡ ok (tt, before ++ log_bytes batches h))
      × (read_batches_loop fuel [] s ≡ ok batches)
log_read_back batches h before valid view s tail fuel stream v holds cut enough = (
  write_objects-log_bytes batches h before,
  stream_loop valid view stream fuel [] s v
      ∙ ap (λ (t : Bytes). read_batches_loop fuel [] t) holds
      ∙ bytes_loop batches h tail cut fuel [] enough,
)
