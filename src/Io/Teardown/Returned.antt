-- ===== src/Io/Teardown/Returned.antt =====
-- Every node goes back to the pool of its shard.
use low_latency_market_data.Common.{
  ℕ, ◌+◌, ◌≡◌, ◌≤◌, ◌<◌, ◌≢◌, refl, ◌∙◌, List, [], ◌∷◌, Option, some, map, get_elem?, get_elem?-set,
  get_elem?-set_other, set, length, inl, inr, ◌==◌, Bool-cases, ==_iff, arith,
}
use mathlib.Core.Path.{subst}
use low_latency_market_data.Common.Words.{IsU64}
use low_latency_market_data.Orderbook.ObjectPool.{Pool}
use low_latency_market_data.Orderbook.PoolAllocator.{
  Pointer, node, Allocators, set_current_shard_index,
}
use low_latency_market_data.Orderbook.PoolAllocator.Slots.{IsSlot, deallocate_lem}
use low_latency_market_data.Io.Teardown.{reset, destroy_from, destroy}

-- The pointers that the shards from number `i` hold, by the numbers of their blocks.
abbrev pub pointers_from : ℕ → List (List ℕ) → List (List Pointer)
pointers_from i [] = []
pointers_from i (blocks ∷ shards) = map (λ b. node i b) blocks ∷ pointers_from (i + 1) shards

-- The slots from number `i` have the blocks of their shards out.
abbrev pub Owned : ℕ → ℕ → List (List ℕ) → List (Option Pool) → Type 0
Owned capacity i [] pools = Unit {0}
Owned capacity i (blocks ∷ shards) pools =
    ((slot : Option Pool) × (get_elem? pools i ≡ some slot) × IsSlot capacity slot blocks)
    × Owned capacity (i + 1) shards pools

Owned-same :
    (capacity i : ℕ) (shards : List (List ℕ)) (pools pools' : List (Option Pool))
    → ((j : ℕ) → i ≤ j → get_elem? pools' j ≡ get_elem? pools j)
    → Owned capacity i shards pools
    → Owned capacity i shards pools'
Owned-same capacity i [] pools pools' same owned = tt
Owned-same capacity i (blocks ∷ shards) pools pools' same ((slot, here, s), owned) = (
  (slot, same i (omega arith) ∙ here, s),
  Owned-same capacity (i + 1) shards pools pools' (λ j le. same j (omega arith)) owned,
)

module _ (capacity : ℕ) (storage : ℕ → Option ℕ) (pos : 0 < capacity) (fits : IsU64 capacity) where
  -- The slot of the thread's index has nothing out any more, and the others are as they were.
  abbrev Emptied : ℕ → List (Option Pool) → List (Option Pool) → Type 0
  Emptied i pools pools' =
      ((slot : Option Pool) × (get_elem? pools' i ≡ some slot) × IsSlot capacity slot [])
      × ((j : ℕ) → i ≢ j → get_elem? pools' j ≡ get_elem? pools j)

  reset-Emptied :
      (blocks : List ℕ) (a : Allocators) (slot : Option Pool)
      → get_elem? a.pools a.current_shard_index ≡ some slot
      → IsSlot capacity slot blocks
      → (a' : Allocators) × (reset capacity storage
            (map (λ b. node a.current_shard_index b) blocks)
            a
          ≡ some a')
        × Emptied a.current_shard_index a.pools a'.pools
  unfolding reset
  reset-Emptied [] a slot here s = (a, refl, ((slot, here, s), λ j ne. refl))
  reset-Emptied (block ∷ blocks) a slot here s =
      let i = a.current_shard_index in
      let (p, run, s') = deallocate_lem capacity storage pos fits a slot block blocks here s in
      let (a', rest, (there, other)) =
        reset-Emptied blocks (record a { pools = set a.pools i (some p) }) (some p)
          (get_elem?-set a.pools i (some p) slot here) s' in
      rw (run, rest)
        (a', refl, (there, λ j ne. other j ne ∙ get_elem?-set_other a.pools i j (some p) ne))

  abbrev AllEmpty : ℕ → ℕ → List (Option Pool) → List (Option Pool) → Type 0
  AllEmpty i n pools pools' =
      ((j : ℕ)
        → i ≤ j
        → j < i + n
        → (slot : Option Pool) × (get_elem? pools' j ≡ some slot) × IsSlot capacity slot [])
      × ((j : ℕ) → j < i → get_elem? pools' j ≡ get_elem? pools j)

  destroy_from-AllEmpty :
      (i : ℕ) (shards : List (List ℕ)) (a : Allocators)
      → Owned capacity i shards a.pools
      → (a' : Allocators) × (destroy_from capacity storage i (pointers_from i shards) a ≡ some a')
        × AllEmpty i (length shards) a.pools a'.pools
  unfolding destroy_from
  destroy_from-AllEmpty i [] a owned =
      (a, refl, ((λ j le lt. absurd (omega arith)), (λ j lt. refl)))
  destroy_from-AllEmpty i (blocks ∷ shards) a ((slot, here, s), owned) =
      let (a₁, run, ((slot₁, there, s₁), other)) =
        reset-Emptied blocks (set_current_shard_index i a) slot here s in
      let (a₂, rest, (empty, kept)) = destroy_from-AllEmpty (i + 1) shards a₁ (
        Owned-same capacity (i + 1) shards a.pools a₁.pools (λ j le. other j (λ e. omega arith))
          owned) in
      rw (run, rest)
        (
          a₂,
          refl,
          (
            (λ j le lt. elim (Bool-cases (i == j)) [
              | inl hit ↦
                  let same = (==_iff i j).0 hit in
                  (
                    slot₁,
                    subst (λ k. get_elem? a₂.pools k ≡ some slot₁) same
                        (kept i (omega arith) ∙ there),
                    s₁,
                  )
              | inr miss ↦ empty j (ground (arith, ==_iff i j)) (omega arith)
            ]),
            (λ j lt. kept j (omega arith) ∙ other j (λ e. omega arith)),
          ),
        )

  -- When each slot has exactly the nodes of its shard's books out, the destructor fails no assertion,
  -- and afterwards no slot has a block out: the memory of every shard is back in that shard's pool.
  pub destroy-Returned :
      (shards : List (List ℕ)) (a : Allocators)
      → Owned capacity 0 shards a.pools
      → (a' : Allocators) × (destroy capacity storage (pointers_from 0 shards) a ≡ some a')
        × ((j : ℕ)
            → j < length shards
            → (slot : Option Pool) × (get_elem? a'.pools j ≡ some slot) × IsSlot capacity slot [])
  unfolding destroy
  destroy-Returned shards a owned =
      let (a', run, (empty, kept)) = destroy_from-AllEmpty 0 shards a owned in
      (a', run, λ j lt. empty j (omega arith) (omega arith))
