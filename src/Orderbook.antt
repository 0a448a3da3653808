-- ===== src/Orderbook.antt =====
-- orderbook/: limit order books and the pools that their nodes come from.
pub mod Types
pub mod Spec
pub mod Book
pub mod ObjectPool
pub mod PoolAllocator
