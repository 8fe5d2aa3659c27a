-- ===== src/Message.antt =====
-- include/kafka/message: the requests that the broker reads and the responses that it writes.
pub mod Headers
pub mod ApiVersions
pub mod DescribeTopicPartitions
pub mod Fetch
pub mod Messages
pub mod Appends
pub mod Framing
pub mod Delivery
pub mod Requests
pub mod RequestsRoundTrip
pub mod Sent
pub mod Responses
pub mod ResponseValues
pub mod ResponsesRoundTrip
pub mod Received
pub mod RequestEnds
