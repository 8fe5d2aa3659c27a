-- ===== src/Protocol/Buffers.antt =====
-- include/kafka/protocol/readable_buffer.hpp and writable_buffer.hpp: the streams in memory.
use kafka_cpp_server.Prelude.{ℕ, ◌+◌, ◌++◌, ltb, length, take, drop, [], if◌then◌else◌}
use kafka_cpp_server.Protocol.Types.{Bytes}
use kafka_cpp_server.Protocol.Outcome.{Io, ok, throw, runtime_error}
use kafka_cpp_server.Protocol.Stream.{Readable, Writable}

pub record ReadableBuffer : Type 0 where
  pub bytes : Bytes
  pub index : ℕ

abbrev pub new_readable_buffer : Bytes → ReadableBuffer
new_readable_buffer bytes = record { bytes = bytes; index = 0 }

-- `last > bytes_.end()` throws; otherwise the bytes between `first` and `last` are copied.
unfoldable pub read_buffer : ℕ → Io ReadableBuffer Bytes
read_buffer nbytes rb =
    let first = rb.index in
    let last = first + nbytes in
    if ltb (length rb.bytes) last
    then throw (runtime_error "ReadableBuffer underflow")
    else ok (take nbytes (drop first rb.bytes), record rb { index = last })

instance abbrev pub buffer_readable : Readable ReadableBuffer
buffer_readable = record { read_from = read_buffer }

pub record WritableBuffer : Type 0 where
  pub bytes : Bytes

abbrev pub new_writable_buffer : WritableBuffer
new_writable_buffer = record { bytes = [] }

-- `insert` at the end.
unfoldable pub write_buffer : Bytes → Io WritableBuffer (Unit {0})
write_buffer src wb = ok (tt, record { bytes = wb.bytes ++ src })

instance abbrev pub buffer_writable : Writable WritableBuffer
buffer_writable = record { write_to = write_buffer }
