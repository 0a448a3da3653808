-- ===== src/Tests.antt =====
-- Concrete inputs for the theorems.
mod Data
mod Messages
mod Books
mod Threads
mod Stages
mod Deltas
mod Shards
mod Feeds
mod Pools
mod Runners
