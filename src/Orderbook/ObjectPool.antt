-- ===== src/Orderbook/ObjectPool.antt =====
-- orderbook/object_pool.hpp: FixedBlockPool. A block is its number, a pointer to a block is `some` of
-- it and the null pointer `none`; of a block's bytes the model keeps the first ones, where the list of
-- free blocks is threaded. `none` around a result is the exception std::bad_alloc.
pub mod FreeList
pub mod Ownership
use low_latency_market_data.Common.{
  ℕ, zero, suc, ◌+◌, ◌-◌, Option, none, some, Bool, ◌==◌, if◌then◌else◌,
}
use low_latency_market_data.Common.Words.{add64, sub64}

pub record Pool : Type 0 where
  pub storage : ℕ → Option ℕ
  pub free_list : Option ℕ
  pub in_use : ℕ

-- `write_next`, or any write of a block's owner to its first bytes.
abbrev pub write_next : (ℕ → Option ℕ) → ℕ → Option ℕ → ℕ → Option ℕ
write_next storage block next j = if block == j then next else storage j

-- The loop of the constructor, from number `i` for `count` rounds.
pub link : (count i : ℕ) → (ℕ → Option ℕ) → ℕ → Option ℕ
link zero i storage = storage
link (suc count) i storage = link count (i + 1) (write_next storage i (some (i + 1)))

-- The constructor, over bytes that hold anything.
pub new_pool : ℕ → (ℕ → Option ℕ) → Pool
new_pool capacity storage = record {
  storage = write_next (link (capacity - 1) 0 storage) (capacity - 1) none;
  free_list = some 0;
  in_use = 0;
}

abbrev pub take_block : Pool → Option ℕ → Option (ℕ × Pool)
take_block p none = none
take_block p (some block) =
    some (block, record p { free_list = p.storage block; in_use = add64 p.in_use 1 })

pub allocate : Pool → Option (ℕ × Pool)
allocate p = take_block p p.free_list

pub deallocate : Pool → ℕ → Pool
deallocate p block = record {
  storage = write_next p.storage block p.free_list;
  free_list = some block;
  in_use = sub64 p.in_use 1;
}

-- The owner of a block writes to it.
pub use_block : Pool → ℕ → Option ℕ → Pool
use_block p block bytes = record p { storage = write_next p.storage block bytes }
