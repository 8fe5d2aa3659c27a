-- ===== src/Protocol/Stream.antt =====
-- The interfaces `IReadable` and `IWritable` (ireadable.hpp, iwritable.hpp), as instance arguments,
-- and the abstract stream that the streams of the program implement: a list of bytes, which is read
-- at the front and written at the back.
use kafka_cpp_server.Prelude.{ℕ, ◌++◌, leb, length, take, drop, if◌then◌else◌}
use kafka_cpp_server.Protocol.Types.{Bytes}
use kafka_cpp_server.Protocol.Outcome.{Io, ok, throw, runtime_error}

-- `read n` is `readable.read(dst, n)` with the bytes that it puts to `dst`.
pub record Readable (S : Type 0) : Type 0 where
  pub read_from : ℕ → Io S Bytes

-- `write bs` is `writable.write(src, n)` with the `n` bytes at `src`.
pub record Writable (S : Type 0) : Type 0 where
  pub write_to : Bytes → Io S (Unit {0})

abbrev pub read : {S : Type 0} ⦃r : Readable S⦄ → ℕ → Io S Bytes
read ⦃r⦄ = r.read_from

abbrev pub write : {S : Type 0} ⦃w : Writable S⦄ → Bytes → Io S (Unit {0})
write ⦃w⦄ = w.write_to

instance abbrev pub bytes_readable : Readable Bytes
bytes_readable = record {
  read_from = λ n s.
      if leb n (length s) then ok (take n s, drop n s) else throw (runtime_error "end of stream");
}

instance abbrev pub bytes_writable : Writable Bytes
bytes_writable = record { write_to = λ bs s. ok (tt, s ++ bs) }
