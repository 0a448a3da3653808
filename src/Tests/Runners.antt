-- ===== src/Tests/Runners.antt =====
-- A runner of three shards, cores of a container, and pools of three blocks.
use low_latency_market_data.Common.{
  ℕ, ◌≡◌, ◌<◌, refl, List, [], ◌∷◌, Option, none, some, Bool, true, ltb, length, get_elem?, arith,
  not, ◌&&◌, ◌==◌, if◌then◌else◌,
}
use low_latency_market_data.Orderbook.ObjectPool.{Pool}
use low_latency_market_data.Orderbook.ObjectPool.Ownership.{IsPool}
use low_latency_market_data.Orderbook.PoolAllocator.{Allocators, allocate}
use low_latency_market_data.Orderbook.PoolAllocator.Slots.{IsSlot, NodeGiven, allocate-NodeGiven}
use low_latency_market_data.Io.Teardown.{destroy}
use low_latency_market_data.Io.Teardown.Returned.{pointers_from, Owned, destroy-Returned}
use low_latency_market_data.Io.PipelineRunner.{Thread, PipelineRunner, new_runner, start, stop}
use low_latency_market_data.Io.PipelineRunner.Threads.{IsJoined, stop-IsJoined}
use low_latency_market_data.Affinity.{usable_from, usable_cpus, target_cpu}
use low_latency_market_data.Affinity.Cores.{target_cpu_lem}

-- Hints for odd tags are refused.
abbrev even : Thread → ℕ → Bool
even t tag = ltb tag 3

-- The threads end when they are told to stop, and not before.
abbrev when_told : Bool → Thread → Bool
when_told stop_requested t = stop_requested

stop-IsJoined_example :
    (r : PipelineRunner ℕ) × (r' : PipelineRunner ℕ) × (new_runner 3 0 ≡ some r)
    × (stop when_told (start true even r) ≡ some r')
    × IsJoined even true when_told 3 r'
stop-IsJoined_example = stop-IsJoined even true when_told 3 0 (omega arith) (omega arith)

-- The cores 4 and 5.
abbrev four_five : ℕ → Bool
four_five c = not (ltb c 4) && ltb c 6

usable_four_five : usable_cpus four_five ≡ 4 ∷ 5 ∷ []
unfolding usable_cpus usable_from
usable_four_five = refl

some_usable : 0 < length (usable_cpus four_five)
some_usable = rw usable_four_five (omega arith)

target_cpu_lem_example :
    (cpu : ℕ) × (target_cpu (usable_cpus four_five) 1 ≡ some cpu)
    × (four_five cpu ≡ true)
    × ((tag' : ℕ)
        → 1 < length (usable_cpus four_five)
        → tag' < length (usable_cpus four_five)
        → target_cpu (usable_cpus four_five) tag' ≡ some cpu
        → tag' ≡ 1)
target_cpu_lem_example = target_cpu_lem four_five 1 some_usable

-- Slot 0 has one block out, slot 1 two, and slot 2 has no pool yet.
abbrev one_out : Pool
one_out = record { storage = λ i. if i == 1 then some 2 else none; free_list = some 1; in_use = 1 }

one_out-IsPool : IsPool 3 one_out (1 ∷ 2 ∷ []) (0 ∷ [])
one_out-IsPool = record {
  chain = (refl, (refl, refl));
  one_place = λ a. ground arith;
  total = refl;
  count = refl;
}

abbrev two_out : Pool
two_out = record { storage = λ i. none; free_list = some 1; in_use = 2 }

two_out-IsPool : IsPool 3 two_out (1 ∷ []) (2 ∷ 0 ∷ [])
two_out-IsPool = record {
  chain = (refl, refl);
  one_place = λ a. ground arith;
  total = refl;
  count = refl;
}

abbrev slots : Allocators
slots = record { current_shard_index = 1; pools = some one_out ∷ some two_out ∷ none ∷ [] }

allocate-NodeGiven_example :
    NodeGiven 3
      (λ i. none)
      (omega arith)
      (omega arith)
      slots
      (2 ∷ 0 ∷ [])
      (allocate 3 (λ i. none) 1 slots)
allocate-NodeGiven_example =
    allocate-NodeGiven 3 (λ i. none) (omega arith) (omega arith) slots (some two_out) (2 ∷ 0 ∷ [])
      refl (1 ∷ [], two_out-IsPool)

abbrev three_shards : List (List ℕ)
three_shards = (0 ∷ []) ∷ (2 ∷ 0 ∷ []) ∷ [] ∷ []

three_shards-Owned : Owned 3 0 three_shards slots.pools
three_shards-Owned = (
  (some one_out, refl, (1 ∷ 2 ∷ [], one_out-IsPool)),
  ((some two_out, refl, (1 ∷ [], two_out-IsPool)), ((none, refl, refl), tt)),
)

destroy-Returned_example :
    (a' : Allocators) × (destroy 3 (λ i. none) (pointers_from 0 three_shards) slots ≡ some a')
    × ((j : ℕ)
        → j < 3
        → (slot : Option Pool) × (get_elem? a'.pools j ≡ some slot) × IsSlot 3 slot [])
destroy-Returned_example =
    destroy-Returned 3 (λ i. none) (omega arith) (omega arith) three_shards slots three_shards-Owned
