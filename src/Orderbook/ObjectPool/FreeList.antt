-- ===== src/Orderbook/ObjectPool/FreeList.antt =====
-- The free list that is threaded through the blocks, as a list of blocks.
use mathlib.Core.Path.{subst}
use low_latency_market_data.Common.{
  ℕ, zero, suc, ◌+◌, ◌-◌, ◌≡◌, ◌≤◌, ◌<◌, refl, ap, ◌∙◌, List, [], ◌∷◌, Option, none, some, false,
  ◌&&◌, ltb, leb, ◌==◌, ==_iff, if◌then◌else◌, length, arith, Bool-cases, inl, inr,
}
use low_latency_market_data.Orderbook.ObjectPool.{write_next, link, new_pool}

-- Following the pointers from `p` gives these blocks, and then the null pointer.
abbrev pub Chain : (ℕ → Option ℕ) → Option ℕ → List ℕ → Type 0
Chain storage p [] = p ≡ none
Chain storage p (a ∷ bs) = (p ≡ some a) × Chain storage (storage a) bs

-- How often a block stands in a list.
abbrev pub times : ℕ → List ℕ → ℕ
times a [] = 0
times a (b ∷ bs) = if b == a then suc (times a bs) else times a bs

abbrev pub without : ℕ → List ℕ → List ℕ
without a [] = []
without a (b ∷ bs) = if b == a then bs else b ∷ without a bs

-- A write to a block that is not free.
pub Chain-write :
    (storage : ℕ → Option ℕ) (p : Option ℕ) (bs : List ℕ) (a : ℕ) (v : Option ℕ)
    → times a bs ≡ 0
    → Chain storage p bs
    → Chain (write_next storage a v) p bs
Chain-write storage p [] a v off c = c
Chain-write storage p (b ∷ bs) a v off (here, rest) =
    let apart : (a == b) ≡ false = ground arith in
    (here, rw apart (Chain-write storage (storage b) bs a v (ground arith) rest))

pub times-without :
    (a b : ℕ) (bs : List ℕ)
    → 0 < times a bs
    → times b (without a bs) + (if a == b then 1 else 0) ≡ times b bs
times-without a b [] h = absurd (omega arith)
times-without a b (c ∷ bs) h = elim (Bool-cases (c == a)) [
  | inl hit ↦ ground arith
  | inr miss ↦ ground (arith, times-without a b bs)
]

pub length-without : (a : ℕ) (bs : List ℕ) → 0 < times a bs → length (without a bs) + 1 ≡ length bs
length-without a [] h = absurd (omega arith)
length-without a (c ∷ bs) h = elim (Bool-cases (c == a)) [
  | inl hit ↦ rw hit (omega arith)
  | inr miss ↦ rw miss (ground (arith, length-without a bs))
]

-- The blocks i, i + 1, ..., i + n - 1.
abbrev pub blocks_from : ℕ → ℕ → List ℕ
blocks_from i zero = []
blocks_from i (suc n) = i ∷ blocks_from (i + 1) n

pub length-blocks_from : (i n : ℕ) → length (blocks_from i n) ≡ n
length-blocks_from i zero = refl
length-blocks_from i (suc n) = ap suc (length-blocks_from (i + 1) n)

pub times-blocks_from :
    (a i n : ℕ) → times a (blocks_from i n) ≡ (if leb i a && ltb a (i + n) then 1 else 0)
times-blocks_from a i zero = ground arith
times-blocks_from a i (suc n) = ground (arith, times-blocks_from a (i + 1) n)

link_lem :
    (count i : ℕ) (storage : ℕ → Option ℕ) (j : ℕ)
    → link count i storage j ≡ (if leb i j && ltb j (i + count) then some (j + 1) else storage j)
unfolding link
link_lem zero i storage j = ground arith
link_lem (suc count) i storage j =
    link_lem count (i + 1) (write_next storage i (some (i + 1))) j ∙ elim (Bool-cases (i == j)) [
      | inl hit ↦ rw (← (==_iff i j).0 hit) (ground arith)
      | inr miss ↦ ground arith
    ]

Chain-blocks_from :
    (storage : ℕ → Option ℕ) (i n : ℕ)
    → ((j : ℕ) → i ≤ j → j < i + n → storage j ≡ some (j + 1))
    → storage (i + n) ≡ none
    → Chain storage (some i) (blocks_from i (suc n))
Chain-blocks_from storage i zero linked end =
    let e : i + 0 ≡ i = omega arith in (refl, subst (λ k. storage k ≡ none) e end)
Chain-blocks_from storage i (suc n) linked end =
    let e : i + suc n ≡ i + 1 + n = omega arith in
    (
      refl,
      rw (linked i (omega arith) (omega arith)) (
          Chain-blocks_from storage (i + 1) n (λ j lo hi. linked j (omega arith) (omega arith))
            (subst (λ k. storage k ≡ none) e end)),
    )

-- All blocks of a new pool are free, in their order.
pub new_pool-Chain :
    (capacity : ℕ) (storage : ℕ → Option ℕ)
    → 0 < capacity
    → Chain
        (new_pool capacity storage).storage
        (new_pool capacity storage).free_list
        (blocks_from 0 capacity)
unfolding new_pool
new_pool-Chain capacity storage pos =
    let n = capacity - 1 in
    let e : suc n ≡ capacity = omega arith in
    subst (λ k. Chain (write_next (link n 0 storage) n none) (some 0) (blocks_from 0 k)) e
      (Chain-blocks_from (write_next (link n 0 storage) n none) 0 n
        (λ j lo hi. ground (arith, link_lem n 0 storage j)) (ground arith))
