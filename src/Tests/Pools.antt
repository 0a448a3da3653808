-- ===== src/Tests/Pools.antt =====
-- A pool of three blocks.
use low_latency_market_data.Common.{refl, [], ◌∷◌, none, some, arith}
use low_latency_market_data.Orderbook.ObjectPool.{Pool, new_pool, allocate, deallocate}
use low_latency_market_data.Orderbook.ObjectPool.Ownership.{
  IsPool, Allocated, new_pool-IsPool, allocate_lem, deallocate-IsPool,
}

abbrev fresh : Pool
fresh = new_pool 3 (λ i. some 9)

new_pool-IsPool_example : IsPool 3 fresh (0 ∷ 1 ∷ 2 ∷ []) []
new_pool-IsPool_example = new_pool-IsPool 3 (λ i. some 9) (omega arith)

allocate_lem_example : Allocated 3 [] (allocate fresh)
allocate_lem_example =
    allocate_lem 3 fresh (0 ∷ 1 ∷ 2 ∷ []) [] (omega arith)
      (new_pool-IsPool 3 (λ i. some 9) (omega arith))

-- The second block is free, the others are taken.
abbrev one_free : Pool
one_free = record { storage = λ i. none; free_list = some 1; in_use = 2 }

one_free-IsPool : IsPool 3 one_free (1 ∷ []) (2 ∷ 0 ∷ [])
one_free-IsPool = record {
  chain = (refl, refl);
  one_place = λ a. ground arith;
  total = refl;
  count = refl;
}

deallocate-IsPool_example : IsPool 3 (deallocate one_free 0) (0 ∷ 1 ∷ []) (2 ∷ [])
deallocate-IsPool_example =
    deallocate-IsPool 3 one_free (1 ∷ []) (2 ∷ 0 ∷ []) 0 (omega arith) one_free-IsPool (omega arith)
