-- ===== src/Publisher.antt =====
-- publisher/: what a shard tells its downstream consumer.
pub mod BookDelta
pub mod Format
pub mod Sinks
