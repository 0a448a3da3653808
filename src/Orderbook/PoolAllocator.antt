-- ===== src/Orderbook/PoolAllocator.antt =====
-- orderbook/object_pool.hpp: PoolAllocator, which takes the nodes of a container from the pool of the
-- thread's shard, for one type of nodes. A pointer is a block of a slot's pool, or memory of
-- std::allocator. `none` is an exception, or undefined behaviour: a failed assertion, or a pointer that
-- is given back to a pool which it is not from.
pub mod Slots
use low_latency_market_data.Common.{
  ℕ, List, [], ◌∷◌, Option, none, some, ◌>>=◌, ◌==◌, if◌then◌else◌, get_elem?, set, replicate,
}
use low_latency_market_data.Orderbook.ObjectPool
use low_latency_market_data.Orderbook.ObjectPool.{Pool, new_pool}

abbrev pub max_pool_shards : ℕ
max_pool_shards = 16

pub data Pointer : Type 0 where
  node : (slot block : ℕ) → Pointer
  heap : (n : ℕ) → Pointer

-- The pools of all slots, and the `current_shard_index` of the thread that runs.
pub record Allocators : Type 0 where
  pub current_shard_index : ℕ
  pub pools : List (Option Pool)

abbrev pub set_current_shard_index : ℕ → Allocators → Allocators
set_current_shard_index index a = record a { current_shard_index = index }

module _ (capacity : ℕ) (storage : ℕ → Option ℕ) where
  abbrev pub no_pools : Allocators
  no_pools = record { current_shard_index = 0; pools = replicate max_pool_shards none }

  -- `if (!slot) slot = std::make_unique<Pool>()`
  abbrev pub made : Option Pool → Pool
  made none = new_pool capacity storage
  made (some p) = p

  abbrev pub put_pool : Pool → Allocators → Allocators
  put_pool p a = record a { pools = set a.pools a.current_shard_index (some p) }

  pub pool : Allocators → Option Pool
  pool a = do slot ← get_elem? a.pools a.current_shard_index; some (made slot)

  abbrev pub take_node : Allocators → Option (ℕ × Pool) → Option (Pointer × Allocators)
  take_node a none = none
  take_node a (some (block, p)) = some (node a.current_shard_index block, put_pool p a)

  pub allocate : ℕ → Allocators → Option (Pointer × Allocators)
  allocate n a =
      if n == 1 then (do p ← pool a; take_node a (ObjectPool.allocate p)) else some (heap n, a)

  abbrev pub give_back : Pointer → Allocators → Option Allocators
  give_back (heap n) a = none
  give_back (node slot block) a =
      if slot == a.current_shard_index
      then (do p ← pool a; some (put_pool (ObjectPool.deallocate p block) a))
      else none

  pub deallocate : Pointer → ℕ → Allocators → Option Allocators
  deallocate pointer n a = if n == 1 then give_back pointer a else some a
