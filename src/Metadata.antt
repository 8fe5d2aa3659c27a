-- ===== src/Metadata.antt =====
-- include/kafka/metadata and src/metadata: the records of a partition's log and what the broker
-- keeps of the cluster's metadata log.
pub mod Records
pub mod RecordsRoundTrip
pub mod Yields
pub mod Maps
pub mod Readers
pub mod Lookup
pub mod Log
pub mod LogReading
pub mod Cluster
pub mod Events
pub mod Loaded
pub mod Loading
pub mod LogEnds
pub mod LoadEnds
pub mod ClusterValues
pub mod LogPaths
