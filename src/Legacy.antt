-- ===== src/Legacy.antt =====
-- src/TCPServer.cpp and the files it uses: the first server, which answers every request with a list of
-- API keys.
pub mod ErrorCode
pub mod Buffer
pub mod KafkaResponse
pub mod KafkaRequest
pub mod TcpServer
pub mod Listening
pub mod Bounds
pub mod VarInts
pub mod Answering
pub mod Extracting
pub mod Serving
pub mod Running
pub mod Lifetime
