-- ===== src/Protocol.antt =====
-- include/kafka/protocol and src/protocol: the wire format. `Types` and `Constants` are its data,
-- `Outcome` is what C++ code may do, `Stream` holds the interfaces of byte streams, `Reading` and
-- `Writing` the functions over them, and `Buffers` and `FileDescriptor` the streams themselves.
pub mod Types
pub mod Outcome
pub mod Constants
pub mod Stream
pub mod ByteOrder
pub mod Reading
pub mod Writing
pub mod Buffers
pub mod FileDescriptor
pub mod Owners
pub mod Ownership
pub mod Simulation
pub mod Readers
pub mod Streams
pub mod Sending
pub mod Duplex
pub mod Appends
pub mod RoundTrip
pub mod Integers
pub mod VarInts
pub mod VarIntEnds
pub mod Progress
pub mod Gives
pub mod Yields
pub mod ReaderEnds
pub mod ZigZag
pub mod Sequences
