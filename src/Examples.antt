-- ===== src/Examples.antt =====
-- The theorems at concrete inputs: a kernel that handles one byte at a time, values of the wire
-- format, and a broker with one topic.
pub mod Kernels
pub mod Values
pub mod Logs
pub mod Broker
pub mod Sessions
pub mod Running
pub mod Loads
pub mod Exchanges
pub mod FirstServer
