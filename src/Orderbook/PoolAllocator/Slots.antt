-- ===== src/Orderbook/PoolAllocator/Slots.antt =====
-- The pools of the slots, and who has their blocks.
use mathlib.Core.Path.{subst}
use low_latency_market_data.Common.{
  ℕ, ◌≡◌, ◌<◌, refl, List, [], ◌∷◌, Option, none, some, ==_refl, get_elem?, length, arith,
}
use low_latency_market_data.Common.Words.{IsU64}
use low_latency_market_data.Orderbook.ObjectPool
use low_latency_market_data.Orderbook.ObjectPool.{Pool, new_pool}
use low_latency_market_data.Orderbook.ObjectPool.FreeList.{times, without, blocks_from}
use low_latency_market_data.Orderbook.ObjectPool.Ownership
use low_latency_market_data.Orderbook.ObjectPool.Ownership.{
  IsPool, Allocated, allocate_lem, new_pool-IsPool, deallocate-IsPool,
}
use low_latency_market_data.Orderbook.PoolAllocator.{
  Pointer, node, Allocators, made, put_pool, pool, take_node, allocate, deallocate,
}

-- A slot whose blocks `taken` are out; a slot without a pool has given nothing away.
abbrev pub IsSlot : ℕ → Option Pool → List ℕ → Type 0
IsSlot capacity none taken = taken ≡ []
IsSlot capacity (some p) taken = (free : List ℕ) × IsPool capacity p free taken

module _ (capacity : ℕ) (storage : ℕ → Option ℕ) (pos : 0 < capacity) (fits : IsU64 capacity) where
  made-IsPool :
      (slot : Option Pool) (taken : List ℕ)
      → IsSlot capacity slot taken
      → (free : List ℕ) × IsPool capacity (made capacity storage slot) free taken
  made-IsPool none taken e = (blocks_from 0 capacity, rw e (new_pool-IsPool capacity storage pos))
  made-IsPool (some p) taken s = s

  -- What `allocate(1)` may do, on the thread's slot whose blocks `taken` are out.
  pub data NodeGiven (a : Allocators) (taken : List ℕ)
      : Option (Pointer × Allocators) → Type 0 where
    exhausted : length taken ≡ capacity → NodeGiven a taken none
    given :
        (block : ℕ) (p : Pool)
        → block < capacity
        → times block taken ≡ 0
        → IsSlot capacity (some p) (block ∷ taken)
        → NodeGiven a taken (some (node a.current_shard_index block, put_pool capacity storage p a))

  take-NodeGiven :
      (a : Allocators) (taken : List ℕ) (x : Option (ℕ × Pool))
      → Allocated capacity taken x
      → NodeGiven a taken (take_node capacity storage a x)
  take-NodeGiven a taken x (Ownership.exhausted all) = exhausted all
  take-NodeGiven a taken x (Ownership.given block p free below unused s) =
      given block p below unused (free, s)

  -- A thread whose slot has its blocks `taken` out: `allocate(1)` throws only when all of the slot's
  -- blocks are out, and otherwise gives a block of the slot that nobody has; the other slots stay
  -- as they are.
  pub allocate-NodeGiven :
      (a : Allocators) (slot : Option Pool) (taken : List ℕ)
      → get_elem? a.pools a.current_shard_index ≡ some slot
      → IsSlot capacity slot taken
      → NodeGiven a taken (allocate capacity storage 1 a)
  unfolding allocate pool
  allocate-NodeGiven a slot taken here s =
      let (free, is_pool) = made-IsPool slot taken s in
      rw here (
        take-NodeGiven a taken _
          (allocate_lem capacity (made capacity storage slot) free taken fits is_pool))

  -- A block goes back to the slot that it is from.
  pub deallocate_lem :
      (a : Allocators) (slot : Option Pool) (block : ℕ) (taken : List ℕ)
      → get_elem? a.pools a.current_shard_index ≡ some slot
      → IsSlot capacity slot (block ∷ taken)
      → (p : Pool) × (deallocate capacity storage (node a.current_shard_index block) 1 a
          ≡ some (put_pool capacity storage p a))
        × IsSlot capacity (some p) taken
  unfolding deallocate pool
  deallocate_lem a none block taken here s = absurd (cc)
  deallocate_lem a (some p) block taken here (free, s) =
      let same = ==_refl block in
      let back = deallocate-IsPool capacity p free (block ∷ taken) block fits s (ground arith) in
      let left : without block (block ∷ taken) ≡ taken = rw same refl in
      rw (here, ==_refl a.current_shard_index)
        (
          ObjectPool.deallocate p block,
          refl,
          (
            block ∷ free,
            subst (λ l. IsPool capacity (ObjectPool.deallocate p block) (block ∷ free) l) left back,
          ),
        )
