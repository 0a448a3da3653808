-- ===== src/Io/ProcessShard/Drain.antt =====
-- What one call of `process_shard` does.
use low_latency_market_data.Common.{
  ℕ, ◌≡◌, refl, ap, [], some, not, ◌==◌, All, length, get_elem?, set,
}
use low_latency_market_data.Orderbook.Spec.{Orders}
use low_latency_market_data.Orderbook.Book.Contract.{HasQuantity}
use low_latency_market_data.Protocol.Messages.{Symbol}
use low_latency_market_data.Io.ShardDemux.{Shard, Routes, Pipeline}
use low_latency_market_data.Io.ProcessShard.{process_shard}
use low_latency_market_data.Io.ProcessShard.Isolation.{Tracks, Drained, process_messages_lem}

abbrev pub with_shard : Pipeline → ℕ → Shard → Routes → Pipeline
with_shard p i s routes = record { shards = set p.shards i s; order_route = routes }

-- On a shard that exists, and whose books hold their symbols' orders, `process_shard` meets no
-- undefined behaviour, empties the queue, says whether it held anything, and leaves every other shard
-- as it was; each symbol's book holds what the queued messages of that symbol alone leave, and the
-- gap detector has observed all their sequence numbers.
pub process_shard_lem :
    (clock : ℕ → ℕ) (i : ℕ) (p : Pipeline) (s : Shard) (os : Symbol → Orders)
    → get_elem? p.shards i ≡ some s
    → Tracks s.books os
    → All (λ qm. HasQuantity qm.message) s.queue.items
    → (s' : Shard) × (routes : Routes) × (process_shard clock i p
        ≡ some (not (length s.queue.items == 0), with_shard p i s' routes))
      × (s'.queue.items ≡ [])
      × Drained (record s { queue = record (s.queue) { items = [] } }) os s.queue.items s'
unfolding process_shard
process_shard_lem clock i p s os here tracks small =
    let emptied : Shard = record s { queue = record (s.queue) { items = [] } } in
    let (s', routes, run, d) =
      process_messages_lem clock 0 s.queue.items emptied p.order_route os tracks small in
    rw (here, run) (s', routes, refl, ap (λ q. q.items) d.queue, d)
