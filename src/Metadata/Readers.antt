-- ===== src/Metadata/Readers.antt =====
-- Records and record batches are read from a stream of the program as from the stream's bytes.
use kafka_cpp_server.Prelude.{◌$◌, ℕ, ◌==◌}
use kafka_cpp_server.Protocol.Types.{Bytes}
use kafka_cpp_server.Protocol.Outcome.{Io}
use kafka_cpp_server.Protocol.Simulation.{Simulates-raise}
use kafka_cpp_server.Protocol.Stream.{Readable, bytes_readable}
use kafka_cpp_server.Protocol.Simulation.{
  Simulates, IsStream, simulation_rules, Simulates-bind, Simulates-if, Simulates-pure,
}
use kafka_cpp_server.Protocol.Reading.{read_array}
use kafka_cpp_server.Protocol.Readers.{
  Simulates-byte, Simulates-int8, Simulates-int16, Simulates-int32, Simulates-int64,
  Simulates-uint32, Simulates-varint, Simulates-varlong, Simulates-array,
}
use kafka_cpp_server.Metadata.Records.{expect_byte, read_value, read_record, read_record_batch}

module _ {S : Type 0} ⦃r : Readable S⦄ (valid : S → Type 0) (view : S → Bytes)
    (stream : IsStream valid view) where
  Simulates-expect :
      (n : ℕ) (m : Io S (Unit {0})) (x : Io Bytes (Unit {0}))
      → Simulates valid view m x
      → Simulates valid view (expect_byte n m) (expect_byte n x)
  unfolding expect_byte
  Simulates-expect n m x h =
      Simulates-bind _ _ _ _ (Simulates-byte valid view stream)
        (λ c. Simulates-if (c == n) _ _ _ _ (Simulates-pure tt) h)

  Simulates-value : (n : ℕ) → Simulates valid view (read_value n) (read_value n)
  unfolding read_value
  Simulates-value n = search (simulation_rules, stream.read_refines)

  array_rule :
      {T : Type 0} (m : Io S T) (x : Io Bytes T)
      → Simulates valid view m x
      → Simulates valid view (read_array m) (read_array x)
  array_rule m x h = Simulates-array valid view stream m x h

  pub Simulates-record : Simulates valid view read_record read_record
  unfolding read_record
  Simulates-record = Simulates-bind _ _ _ _ (Simulates-varint valid view stream) $ λ _.
      Simulates-bind _ _ _ _ (Simulates-int8 valid view stream) $ λ _.
      Simulates-bind _ _ _ _ (Simulates-varlong valid view stream) $ λ _.
      Simulates-bind _ _ _ _ (Simulates-varint valid view stream) $ λ _.
      Simulates-bind _ _ _ _ (Simulates-expect 0x01 _ _ (Simulates-raise _)) $ λ _.
      Simulates-bind _ _ _ _ (Simulates-varint valid view stream) $ λ n.
      Simulates-bind _ _ _ _ (Simulates-value n) $ λ _.
      Simulates-bind _ _ _ _ (Simulates-expect 0x00 _ _ (Simulates-raise _)) $ λ _. Simulates-pure _

  pub Simulates-record_batch : Simulates valid view read_record_batch read_record_batch
  unfolding read_record_batch
  Simulates-record_batch = Simulates-bind _ _ _ _ (Simulates-int64 valid view stream) $ λ _.
      Simulates-bind _ _ _ _ (Simulates-int32 valid view stream) $ λ _.
      Simulates-bind _ _ _ _ (Simulates-int32 valid view stream) $ λ _.
      Simulates-bind _ _ _ _ (Simulates-int8 valid view stream) $ λ _.
      Simulates-bind _ _ _ _ (Simulates-uint32 valid view stream) $ λ _.
      Simulates-bind _ _ _ _ (Simulates-int16 valid view stream) $ λ _.
      Simulates-bind _ _ _ _ (Simulates-int32 valid view stream) $ λ _.
      Simulates-bind _ _ _ _ (Simulates-int64 valid view stream) $ λ _.
      Simulates-bind _ _ _ _ (Simulates-int64 valid view stream) $ λ _.
      Simulates-bind _ _ _ _ (Simulates-int64 valid view stream) $ λ _.
      Simulates-bind _ _ _ _ (Simulates-int16 valid view stream) $ λ _.
      Simulates-bind _ _ _ _ (Simulates-int32 valid view stream) $ λ _.
      Simulates-bind _ _ _ _ (array_rule _ _ Simulates-record) $ λ _. Simulates-pure _
