-- ===== src/Metadata/LogEnds.antt =====
-- The reading of a log comes to an end, since each batch takes bytes of it.
use kafka_cpp_server.Prelude.{
  ℕ, zero, suc, ◌<◌, ◌≡◌, ◌≢◌, refl, sym, ◌∙◌, List, [], ◌∷◌, ◌++◌, length, ◌$◌, ◌==◌, arith,
}
use kafka_cpp_server.Protocol.Types.{Bytes, is_negative}
use kafka_cpp_server.Protocol.Outcome.{Outcome, Io, ok, throw, undefined, unfinished}
use kafka_cpp_server.Protocol.Stream.{Readable, bytes_readable}
use kafka_cpp_server.Protocol.Simulation.{IsStream}
use kafka_cpp_server.Protocol.Progress.{
  Consumes, Ends, end_rules, Ends-pure, Ends-raise, Ends-if, Ends-bind, Ends-take,
}
use kafka_cpp_server.Protocol.ReaderEnds.{
  Ends-byte, Ends-int8, Ends-int16, Ends-int32, Ends-uint32, Ends-int64, Ends-int64_any,
  Ends-varint, Ends-varlong, Ends-array,
}
use kafka_cpp_server.Metadata.Records.{
  RecordBatch, expect_byte, read_value, read_record, read_record_batch,
}
use kafka_cpp_server.Metadata.Log.{read_batches_loop}
use kafka_cpp_server.Metadata.LogReading.{stream_loop}

Ends-expect : (n : ℕ) (m : Io Bytes (Unit {0})) → Ends 0 m → Ends 0 (expect_byte n m)
unfolding expect_byte
Ends-expect n m h = Ends-bind _ _ Ends-byte (λ c. Ends-if (c == n) _ _ (Ends-pure tt) h)

Ends-value : (n : ℕ) → Ends 0 (read_value n)
unfolding read_value
Ends-value n = Ends-if (is_negative 32 n) _ _ (Ends-raise _) (Ends-take n)

Ends-record : Ends 0 read_record
unfolding read_record
Ends-record =
    search (end_rules, Ends-varint, Ends-int8, Ends-varlong, Ends-expect, Ends-value) depth 30

Ends-record_batch : Ends 8 read_record_batch
unfolding read_record_batch
Ends-record_batch = Ends-bind _ _ Ends-int64 $ λ _. Ends-bind _ _ Ends-int32 $ λ _.
    Ends-bind _ _ Ends-int32 $ λ _. Ends-bind _ _ Ends-int8 $ λ _. Ends-bind _ _ Ends-uint32 $ λ _.
    Ends-bind _ _ Ends-int16 $ λ _. Ends-bind _ _ Ends-int32 $ λ _.
    Ends-bind _ _ Ends-int64_any $ λ _. Ends-bind _ _ Ends-int64_any $ λ _.
    Ends-bind _ _ Ends-int64_any $ λ _. Ends-bind _ _ Ends-int16 $ λ _.
    Ends-bind _ _ Ends-int32 $ λ _.
    Ends-bind _ _ (Ends-array read_record Ends-record) $ λ _. Ends-pure _

returned : {l : List RecordBatch} → ok l ≢ unfinished
returned q = cc

stopped : ◌≢◌ {A = Outcome (List RecordBatch)} undefined unfinished
stopped q = cc

-- A round leaves fewer bytes, or is the last.
next_round :
    (s : Bytes) (fuel fuel' : ℕ) (acc : List RecordBatch) (o : Outcome (RecordBatch × Bytes))
    → read_record_batch s ≡ o
    → Consumes 8 s o
    → ((acc : List RecordBatch) (t : Bytes)
        → length t < length s
        → (read_batches_loop fuel acc t ≢ unfinished)
          × (read_batches_loop fuel acc t ≡ read_batches_loop fuel' acc t))
    → (read_batches_loop (suc fuel) acc s ≢ unfinished)
      × (read_batches_loop (suc fuel) acc s ≡ read_batches_loop (suc fuel') acc s)
unfolding read_batches_loop
next_round s fuel fuel' acc (ok (b, t)) e c later =
    let (ends, same) = later (acc ++ b ∷ []) t (omega arith) in
    (λ q. ends (sym (rw (read_batches_loop, e) refl) ∙ q), rw (read_batches_loop, e) same)
next_round s fuel fuel' acc (throw x) e c later =
    let returns : read_batches_loop (suc fuel) acc s ≡ ok acc = rw (read_batches_loop, e) refl in
    (λ q. returned (sym returns ∙ q), rw (read_batches_loop, e) refl)
next_round s fuel fuel' acc undefined e c later =
    let stops : read_batches_loop (suc fuel) acc s ≡ undefined = rw (read_batches_loop, e) refl in
    (λ q. stopped (sym stops ∙ q), rw (read_batches_loop, e) refl)
next_round s fuel fuel' acc unfinished e c later = absurd c

bytes_end :
    (fuel fuel' : ℕ) (acc : List RecordBatch) (s : Bytes)
    → length s < fuel
    → length s < fuel'
    → (read_batches_loop fuel acc s ≢ unfinished)
      × (read_batches_loop fuel acc s ≡ read_batches_loop fuel' acc s)
bytes_end zero fuel' acc s h k = absurd (omega arith)
bytes_end (suc fuel) zero acc s h k = absurd (omega arith)
bytes_end (suc fuel) (suc fuel') acc s h k =
    next_round s fuel fuel' acc (read_record_batch s) refl (Ends-record_batch.at s)
      (λ acc t fewer. bytes_end fuel fuel' acc t (omega arith) (omega arith))

-- On a stream that behaves as its bytes, whatever they are, the loop that reads a log does not use up
-- more fuel than there are bytes: it returns or is undefined, and more fuel makes no difference to
-- what it does.
pub read_batches_loop-ends :
    {F : Type 0} ⦃r : Readable F⦄ (valid : F → Type 0) (view : F → Bytes) (log_fd : F)
    (fuel fuel' : ℕ) (acc : List RecordBatch)
    → IsStream valid view
    → valid log_fd
    → length (view log_fd) < fuel
    → length (view log_fd) < fuel'
    → (read_batches_loop fuel acc log_fd ≢ unfinished)
      × (read_batches_loop fuel acc log_fd ≡ read_batches_loop fuel' acc log_fd)
read_batches_loop-ends valid view log_fd fuel fuel' acc stream v h k =
    let (ends, same) = bytes_end fuel fuel' acc (view log_fd) h k in
    let as_bytes = stream_loop valid view stream fuel acc log_fd v in
    (
      λ q. ends (sym as_bytes ∙ q),
      as_bytes ∙ same ∙ sym (stream_loop valid view stream fuel' acc log_fd v),
    )
