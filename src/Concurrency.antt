-- ===== src/Concurrency.antt =====
-- concurrency/: the gap detector of a shard and the ring buffers between its threads.
pub mod GapDetector
pub mod RingBuffer
pub mod Queue
pub mod LatencyTrace
