-- ===== src/Server.antt =====
-- src/network/server.cpp and include/kafka/network: the handlers of the requests and the loop that
-- serves a client.
pub mod Handlers
pub mod Serve
pub mod Versions
pub mod Instance
pub mod Alone
pub mod Listening
pub mod Accepting
pub mod Sockets
pub mod System
pub mod Conversed
pub mod Isolation
pub mod Describing
pub mod Fetching
pub mod Answers
pub mod Rounds
pub mod Conversation
pub mod HangUp
pub mod Finishing
pub mod Ends
pub mod Ranges
pub mod FetchRanges
pub mod DescribeRanges
pub mod HandleRanges
pub mod Exchange
