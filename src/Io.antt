-- ===== src/Io.antt =====
-- io/: the path of a message from its bytes to its symbol's order book.
pub mod ShardDemux
pub mod ProcessShard
pub mod Stage
pub mod FeedGenerator
pub mod NetworkReader
pub mod Teardown
pub mod PipelineRunner
pub mod Interleaved
