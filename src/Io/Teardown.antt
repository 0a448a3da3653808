-- ===== src/Io/Teardown.antt =====
-- io/shard_demux.cpp: the destructor of ShardedPipeline, on the nodes of one type that the shards' books
-- hold, in the order in which the books give them back. `none` is a failed assertion.
pub mod Returned
use low_latency_market_data.Common.{ℕ, ◌+◌, List, [], ◌∷◌, Option, none, some, ◌>>=◌}
use low_latency_market_data.Orderbook.PoolAllocator
use low_latency_market_data.Orderbook.PoolAllocator.{Pointer, Allocators, set_current_shard_index}

module _ (capacity : ℕ) (storage : ℕ → Option ℕ) where
  -- `shards_[i].reset()`
  pub reset : List Pointer → Allocators → Option Allocators
  reset [] a = some a
  reset (pointer ∷ pointers) a = do
    a' ← PoolAllocator.deallocate capacity storage pointer 1 a
    reset pointers a'

  -- The loop, from shard number `i`.
  pub destroy_from : ℕ → List (List Pointer) → Allocators → Option Allocators
  destroy_from i [] a = some a
  destroy_from i (pointers ∷ shards) a = do
    a' ← reset pointers (set_current_shard_index i a)
    destroy_from (i + 1) shards a'

  pub destroy : List (List Pointer) → Allocators → Option Allocators
  destroy shards a = destroy_from 0 shards a
