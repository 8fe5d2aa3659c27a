-- ===== src/Lib.antt =====
-- KafkaCppServer, a broker that answers Fetch, ApiVersions and DescribeTopicPartitions requests
-- from the logs of a Kafka cluster in KRaft mode.
--
-- A thread of `serve_client` (src/network/server.cpp) reads a request message from the client's
-- file descriptor, handles it, and writes the response message, until an exception ends it. The
-- handlers look topics up in ClusterMetadata, which the first of them fills from the log of the
-- topic __cluster_metadata, and read the record batches of partitions from the logs.
--
-- Modules and sources:
-- - Protocol.Types, Constants: include/kafka/protocol/types.hpp, uuid.hpp, constants.hpp. A signed
--   integer of w bits is its two's complement pattern, a number below 2 ^ w.
-- - Protocol.Outcome: what running code comes to. `ok`, `throw`, `undefined` for undefined
--   behaviour, `unfinished` for a loop that has used up its fuel. `Io S A` is code on a stream of
--   type S.
-- - Protocol.Stream: the interfaces IReadable and IWritable (ireadable.hpp, iwritable.hpp) as
--   instance arguments, and lists of bytes as the abstract stream.
-- - Protocol.ByteOrder: include/kafka/utils.hpp and how an integer lies in memory, on a host of
--   either byte order.
-- - Protocol.Reading, Writing: src/protocol/ireadable.cpp, iwritable.cpp and the templates of
--   ireadable.hpp and iwritable.hpp, one definition for each function.
-- - Protocol.Buffers, FileDescriptor: readable_buffer.hpp, writable_buffer.hpp and
--   src/protocol/file_descriptor.cpp. The system calls read and write are a parameter, `Kernel`;
--   what is relied on of them is `IsReliable` (Streams) and `Sends` or, if
--   calls may fail, `MaySend` (Sending).
-- - Protocol.Simulation, Readers, Streams, Duplex: buffers and file descriptors as the list of
--   their bytes.
-- - Protocol.RoundTrip, Integers, VarInts, ZigZag, Sequences: readers and writers that belong
--   together.
-- - Protocol.Gives, Yields: what code returns satisfies a predicate; each reader returns values in
--   the range of its type.
-- - Protocol.VarIntEnds: how the loop of `read_unsigned_varlong` ends. Progress, ReaderEnds: how
--   each reader ends.
-- - Protocol.Owners: classes whose objects own a descriptor, as an interface, and operations on any
--   number of the objects. Ownership: the constructors, moves and the destructor of FileDescriptor
--   (include/kafka/protocol/file_descriptor.hpp) as such a class.
-- - Protocol.Appends: each writer puts bytes of its own to a buffer.
-- - Metadata.Records, Log, Maps, Cluster: include/kafka/metadata/cluster_metadata.hpp and
--   src/metadata/cluster_metadata.cpp. The file system is a parameter, `Files`. RecordsRoundTrip,
--   Readers, Yields, LogReading, LogEnds, LogPaths, Lookup, Events, Loaded, Loading, LoadEnds and
--   ClusterValues have what is proved of them.
-- - Message.Headers, ApiVersions, DescribeTopicPartitions, Fetch, Messages: include/kafka/message.
--   The subclasses of AbstractRequest and AbstractResponse are constructors of two data types.
--   Appends, Framing and Delivery have what is proved of them. Requests is the encoding of
--   requests, which is the client's side and not in the repository; RequestsRoundTrip and Sent
--   compare it with the readers. Responses is a client's reading of responses, likewise;
--   ResponseValues, ResponsesRoundTrip and Received compare it with the writers. RequestEnds: how
--   the readers end.
-- - Server.Handlers, Serve: src/network/server.cpp and include/kafka/network/client.hpp.
--   `get_instance` passes on the instance of ClusterMetadata. Versions, Describing, Fetching,
--   Answers, Rounds, Conversation, HangUp, Exchange, Instance, Alone, Finishing, Ends, Ranges,
--   FetchRanges, DescribeRanges and HandleRanges have what is proved of them.
-- - Server.Listening: the constructors and the destructor of Server and its loop `start`
--   (src/network/server.cpp, include/kafka/network/server.hpp), and `main` (src/main.cpp). The
--   socket calls are a parameter, `Sockets`. Accepting has what is proved of them, and Sockets that
--   Server objects are owners of their sockets.
-- - Server.System: the running server, as a step relation: `start`, and a thread of `serve_client`
--   for each client, whose phases (reading, handling, writing) are interleaved in any order. The
--   threads share the instance of ClusterMetadata. An exception that leaves a thread or `start`
--   ends the program. Conversed and Isolation have its invariant.
-- - Legacy: the first server, of src/TCPServer.cpp, TCPServer.hpp, KafkaResponse.hpp, Buffer.cpp and
--   ErrorCode.hpp, which the build does not compile. Buffer, KafkaResponse, KafkaRequest, TcpServer,
--   Listening and ErrorCode are its definitions; Bounds, VarInts, Answering, Extracting, Serving,
--   Running and Lifetime have what is proved of them. Its socket calls are parameters, `Connections` and
--   `Calls`.
-- - Examples: the theorems at concrete inputs.
--
-- Bounds: `read_unsigned_varlong` has eleven rounds, since its eleventh round shifts by 70, which
-- is undefined. `write_unsigned_varlong` has ten rounds, since ten groups of seven bits hold 64
-- bits. `read` of a descriptor has a round for each byte, since a round takes one byte at least or
-- throws; `write` likewise, if no call takes nothing. The loops that read a log and serve a client
-- have their bound as an argument; for a log, more rounds than the file has bytes are enough.
-- `appendVarInt` of the first server has five rounds, since five groups of seven bits hold an INT32
-- that is not negative.
--
-- Fields that no constructor of the program sets have the values of an argument, `Storage`.
--
-- Not modelled: failed allocations; the mutex of ClusterMetadata, whose maps do not change after
-- the constructor; what is inside a phase of a thread, which touches the thread's own connection
-- and, once made, a constant instance; what undefined behaviour does, which ends a run of
-- Server.System as an exception does; changes of the log files while the server runs; what the
-- first server prints, but for the exceptions that its loop reports; debug output.
pub mod Prelude
pub mod Protocol
pub mod Metadata
pub mod Message
pub mod Server
pub mod Legacy
pub mod Examples
