-- ===== src/Orderbook/ObjectPool/Ownership.antt =====
-- Who has a block of the pool: the pool or an owner.
use low_latency_market_data.Common.{
  ℕ, suc, ◌+◌, ◌≡◌, ◌<◌, refl, List, [], ◌∷◌, Option, none, some, ltb, ==_refl, if◌then◌else◌,
  length, arith,
}
use low_latency_market_data.Common.Words.{add64, IsU64}
use low_latency_market_data.Orderbook.ObjectPool.{Pool, new_pool, allocate, deallocate, use_block}
use low_latency_market_data.Orderbook.ObjectPool.FreeList.{
  Chain, times, without, Chain-write, times-without, length-without, blocks_from,
  length-blocks_from, times-blocks_from, new_pool-Chain,
}

-- `free` is the pool's list, and `taken` are the blocks that it gave away.
pub record IsPool (capacity : ℕ) (p : Pool) (free taken : List ℕ) : Type 0 where
  pub chain : Chain p.storage p.free_list free
  pub one_place : (a : ℕ) → times a free + times a taken ≡ (if ltb a capacity then 1 else 0)
  pub total : length free + length taken ≡ capacity
  pub count : p.in_use ≡ length taken

-- In a new pool every block is free.
pub new_pool-IsPool :
    (capacity : ℕ) (storage : ℕ → Option ℕ)
    → 0 < capacity
    → IsPool capacity (new_pool capacity storage) (blocks_from 0 capacity) []
unfolding new_pool
new_pool-IsPool capacity storage pos = record {
  chain = new_pool-Chain capacity storage pos;
  one_place = λ a. ground (arith, times-blocks_from a 0 capacity);
  total = omega (arith, length-blocks_from 0 capacity);
  count = refl;
}

-- What `allocate` may do: throw, when every block is taken, or give a block that was free.
pub data Allocated (capacity : ℕ) (taken : List ℕ) : Option (ℕ × Pool) → Type 0 where
  exhausted : length taken ≡ capacity → Allocated capacity taken none
  given :
      (block : ℕ) (p : Pool) (free : List ℕ)
      → block < capacity
      → times block taken ≡ 0
      → IsPool capacity p free (block ∷ taken)
      → Allocated capacity taken (some (block, p))

-- `allocate` throws std::bad_alloc only when every block is taken; otherwise it gives a block of the
-- pool that nobody has.
pub allocate_lem :
    (capacity : ℕ) (p : Pool) (free taken : List ℕ)
    → IsU64 capacity
    → IsPool capacity p free taken
    → Allocated capacity taken (allocate p)
unfolding allocate
allocate_lem capacity p [] taken fits s = let t = s.total in rw s.chain (exhausted (omega arith))
allocate_lem capacity p (a ∷ free) taken fits s =
    let once = s.one_place a in
    let total = s.total in
    let count = s.count in
    let next : add64 p.in_use 1 ≡ suc (length taken) = omega arith in
    rw s.chain.0 (
      given a _ free (ground (arith, ==_refl a)) (ground (arith, ==_refl a)) (record {
        chain = s.chain.1;
        one_place = λ b. ground (arith, s.one_place b);
        total = omega arith;
        count = next;
      }))

-- Giving back a block that was taken, in a well-formed pool whose capacity fits in 64 bits, makes it the
-- first free one, takes it once from the taken ones, and leaves the pool well-formed.
pub deallocate-IsPool :
    (capacity : ℕ) (p : Pool) (free taken : List ℕ) (block : ℕ)
    → IsU64 capacity
    → IsPool capacity p free taken
    → 0 < times block taken
    → IsPool capacity (deallocate p block) (block ∷ free) (without block taken)
unfolding deallocate
deallocate-IsPool capacity p free taken block fits s has =
    let once = s.one_place block in
    let total = s.total in
    let count = s.count in
    let len = length-without block taken has in
    let off : times block free ≡ 0 = ground arith in
    record {
      chain = (
        refl,
        rw (==_refl block) (Chain-write p.storage p.free_list free block p.free_list off s.chain),
      );
      one_place = λ b. ground (arith, s.one_place b, times-without block b taken has);
      total = omega arith;
      count = omega arith;
    }

-- A write by the owner of a block leaves the pool well-formed.
use_block-IsPool :
    (capacity : ℕ) (p : Pool) (free taken : List ℕ) (block : ℕ) (bytes : Option ℕ)
    → IsPool capacity p free taken
    → 0 < times block taken
    → IsPool capacity (use_block p block bytes) free taken
unfolding use_block
use_block-IsPool capacity p free taken block bytes s has =
    let once = s.one_place block in
    record {
      chain = Chain-write p.storage p.free_list free block bytes (ground arith) s.chain;
      one_place = s.one_place;
      total = s.total;
      count = s.count;
    }
