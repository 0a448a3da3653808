-- ===== src/Io/ProcessShard/Pending.antt =====
-- `process_pending`, which drains the shards one after the other.
use mathlib.Core.Path.{subst}
use mathlib.Core.Option.{some-injective}
use low_latency_market_data.Common.{
  ℕ, zero, suc, ◌+◌, ◌<◌, ◌≤◌, ◌≡◌, ◌≢◌, refl, ap, sym, ◌∙◌, [], ◌==◌, ==_iff, Bool-cases,
  get_elem?-within, some, All, length, length-set, get_elem?, get_elem?-set, get_elem?-set_other,
  inl, inr, arith,
}
use low_latency_market_data.Orderbook.Spec.{Orders}
use low_latency_market_data.Orderbook.Book.Contract.{HasQuantity}
use low_latency_market_data.Protocol.Messages.{Symbol}
use low_latency_market_data.Io.ShardDemux.{Shard, Routes, Pipeline}
use low_latency_market_data.Common.{get_elem?-below}
use low_latency_market_data.Io.ProcessShard.{process_from, process_pending}
use low_latency_market_data.Io.ProcessShard.Isolation.{Tracks, Drained}
use low_latency_market_data.Io.ProcessShard.Drain.{with_shard, process_shard_lem}

-- A shard that can be drained.
pub record IsReady (os : Symbol → Orders) (s : Shard) : Type 0 where
  pub tracks : Tracks s.books os
  pub small : All (λ qm. HasQuantity qm.message) s.queue.items

-- The shard number `j` of `p` is drained in `p'`.
abbrev pub IsDrained : (ℕ → Symbol → Orders) → ℕ → Pipeline → Shard → Type 0
IsDrained os j p' s =
    (s' : Shard) × (get_elem? p'.shards j ≡ some s')
    × (s'.queue.items ≡ [])
    × Drained (record s { queue = record (s.queue) { items = [] } }) (os j) s.queue.items s'

-- What the loop from number `i` leaves.
pub record DrainedFrom (os : ℕ → Symbol → Orders) (i : ℕ) (p p' : Pipeline) : Type 0 where
  pub count : length p'.shards ≡ length p.shards
  pub before : (j : ℕ) → j < i → get_elem? p'.shards j ≡ get_elem? p.shards j
  pub from : (j : ℕ) (s : Shard) → i ≤ j → get_elem? p.shards j ≡ some s → IsDrained os j p' s

-- The loop starts behind the last shard.
past :
    (os : ℕ → Symbol → Orders) (i : ℕ) (p : Pipeline) → i ≡ length p.shards → DrainedFrom os i p p
past os i p e = record {
  count = refl;
  before = λ j below. refl;
  from = λ j s above here. let within = get_elem?-within p.shards j s here in absurd (omega arith);
}

-- One shard is drained, and the loop goes on.
next :
    (os : ℕ → Symbol → Orders) (i : ℕ) (p p' : Pipeline) (s s1 : Shard) (routes : Routes)
    → get_elem? p.shards i ≡ some s
    → s1.queue.items ≡ []
    → Drained (record s { queue = record (s.queue) { items = [] } }) (os i) s.queue.items s1
    → DrainedFrom os (i + 1) (with_shard p i s1 routes) p'
    → DrainedFrom os i p p'
next os i p p' s s1 routes here empty drained d = record {
  count = d.count ∙ length-set p.shards i s1;
  before = λ j below.
      d.before j (omega arith) ∙ get_elem?-set_other p.shards i j s1 (λ e. absurd (omega arith));
  from = λ j t above there. elim (Bool-cases (i == j)) [
    | inl hit ↦
        let same = (==_iff i j).0 hit in
        let there' : get_elem? p.shards i ≡ some t = ap (λ k. get_elem? p.shards k) same ∙ there in
        subst (λ k. IsDrained os k p' t) same
          (subst (λ x. IsDrained os i p' x) (some-injective s t (sym here ∙ there'))
            (s1, d.before i (omega arith) ∙ get_elem?-set p.shards i s1 s here, empty, drained))
    | inr miss ↦
        let apart : i ≢ j = λ same. absurd (cc ((==_iff i j).1 same)) in
        d.from j t (omega arith) (get_elem?-set_other p.shards i j s1 apart ∙ there)
  ];
}

process_from_lem :
    (clock : ℕ → ℕ → ℕ) (os : ℕ → Symbol → Orders) (count i : ℕ) (p : Pipeline)
    → i + count ≡ length p.shards
    → ((j : ℕ) (s : Shard) → i ≤ j → get_elem? p.shards j ≡ some s → IsReady (os j) s)
    → (p' : Pipeline) × (process_from clock count i p ≡ some p') × DrainedFrom os i p p'
unfolding process_from
process_from_lem clock os zero i p all ready = (p, refl, past os i p (omega arith))
process_from_lem clock os (suc count) i p all ready =
    let (s, here) = get_elem?-below p.shards i (omega arith) in
    let r = ready i s (omega arith) here in
    let (s1, routes, run, empty, drained) =
      process_shard_lem (clock i) i p s (os i) here r.tracks r.small in
    let (p', rest, d) =
      process_from_lem clock os count (i + 1) (with_shard p i s1 routes)
        (rw (length-set p.shards i s1) (omega arith))
        (λ j t above there.
          ready j t (omega arith)
            (sym (get_elem?-set_other p.shards i j s1 (λ e. absurd (omega arith))) ∙ there)) in
    rw run (p', rest, next os i p p' s s1 routes here empty drained d)

-- On a pipeline whose books all hold their symbols' orders, `process_pending` meets no undefined
-- behaviour and drains every shard: its queue is empty, each of its books holds what the queued
-- messages of its symbol alone leave, and its gap detector has observed all their sequence numbers.
pub process_pending_lem :
    (clock : ℕ → ℕ → ℕ) (os : ℕ → Symbol → Orders) (p : Pipeline)
    → ((j : ℕ) (s : Shard) → get_elem? p.shards j ≡ some s → IsReady (os j) s)
    → (p' : Pipeline) × (process_pending clock p ≡ some p')
      × (length p'.shards ≡ length p.shards)
      × ((j : ℕ) (s : Shard) → get_elem? p.shards j ≡ some s → IsDrained os j p' s)
unfolding process_pending
process_pending_lem clock os p ready =
    let (p', run, d) =
      process_from_lem clock os (length p.shards) 0 p (omega arith)
        (λ j s _ here. ready j s here) in
    (p', run, d.count, λ j s here. d.from j s (omega arith) here)
