-- ===== src/Tests/Shards.antt =====
-- A pipeline of two shards on concrete messages.
use mathlib.Core.Path.{subst}
use mathlib.Core.Option.{some-injective}
use low_latency_market_data.Io.ProcessShard.Pending.{IsReady, IsDrained, process_pending_lem}
use low_latency_market_data.Common.{
  ℕ, zero, suc, length, get_elem?, ◌≡◌, refl, List, [], ◌∷◌, none, some, ok, err, ℤ, true, arith,
}
use low_latency_market_data.Common.Maps
use low_latency_market_data.Common.Maps.{nat_eq}
use low_latency_market_data.Protocol.Messages.{add, cancel, replace}
use low_latency_market_data.Protocol.Encoder.Wire.{wire}
use low_latency_market_data.Protocol.Decoder.Wire.{decode-wire}
use low_latency_market_data.Concurrency.LatencyTrace.{no_trace}
use low_latency_market_data.Io.ShardDemux.{
  QueuedMessage, Shard, Routes, Pipeline, OrderRoute, route, new_shard, demux, new_pipeline,
  shard_for_symbol,
}
use low_latency_market_data.Io.ShardDemux.Routing.{IsRouted}
use low_latency_market_data.Io.ShardDemux.Dispatch.{Done, demux_lem}
use low_latency_market_data.Io.ProcessShard.{process_shard, process_pending}
use low_latency_market_data.Io.ProcessShard.Isolation.{Drained, empty-Tracks}
use low_latency_market_data.Io.ProcessShard.Drain.{with_shard, process_shard_lem}
use low_latency_market_data.Orderbook.Types.{Node, OrderLocation, duplicate_order_id}
use low_latency_market_data.Orderbook.Book.{Book, has_order, apply}
use low_latency_market_data.Io.ShardDemux.Stranded.{replace_strands}
use low_latency_market_data.Io.Interleaved.{Threads, queued, Running, start, step, found_route}
use low_latency_market_data.Io.Interleaved.Home.{StaysHome, Running-StaysHome}
use low_latency_market_data.Orderbook.Book.Refusals.{refused_unchanged}
use low_latency_market_data.Tests.Data.{acme, bid, drop_ask, move_bid}
use low_latency_market_data.Tests.Messages.{bid-IsAdd}

abbrev pub two_shards : Pipeline
two_shards = record { shards = new_shard ∷ new_shard ∷ []; order_route = [] }

abbrev bid_bytes : List ℕ
bid_bytes = wire (add bid)

pub two_shards-IsRouted : IsRouted 2 []
unfolding Maps.lookup
two_shards-IsRouted id = tt

demux_lem_example :
    Done two_shards
      (record no_trace { t_received = 1; t_decoded = 2; t_demuxed = 3 })
      (ok (add bid))
      (demux two_shards bid_bytes 1 2 3)
demux_lem_example =
    demux_lem two_shards bid_bytes 1 2 3 (ok (add bid)) (omega arith) two_shards-IsRouted
      (decode-wire (add bid) [] bid-IsAdd)

abbrev waiting_messages : List QueuedMessage
waiting_messages =
    record { symbol = acme; message = add bid; trace = no_trace }
    ∷ record { symbol = acme; message = cancel drop_ask; trace = no_trace }
    ∷ []

abbrev busy_shard : Shard
busy_shard = record new_shard { queue = record { items = waiting_messages; dropped = 0 } }

abbrev busy : Pipeline
busy = record { shards = new_shard ∷ busy_shard ∷ []; order_route = [] }

process_shard_lem_example :
    (s' : Shard) × (routes : Routes) × (process_shard (λ i. i) 1 busy
      ≡ some (true, with_shard busy 1 s' routes))
    × (s'.queue.items ≡ [])
    × Drained
        (record busy_shard { queue = record (busy_shard.queue) { items = [] } })
        (λ s. [])
        waiting_messages
        s'
process_shard_lem_example =
    process_shard_lem (λ i. i) 1 busy busy_shard (λ s. []) refl empty-Tracks (omega arith, (tt, tt))

abbrev resting : ℕ → ℕ → Node
resting id a = record {
  addr = a;
  order = record { order_id = id; side = 0; price = ℤ.pos 100; quantity = 5 };
}

abbrev place : ℕ → OrderLocation
place a = record { side = 0; price = ℤ.pos 100; it = a }

-- The orders 7 and 9 rest at one price.
abbrev two_bids : Book
two_bids = record {
  bids = (ℤ.pos 100, record { total_quantity = 10; orders = resting 7 0 ∷ resting 9 1 ∷ [] }) ∷ [];
  asks = [];
  order_index = (7, place 0) ∷ (9, place 1) ∷ [];
  next_node = 2;
}

abbrev route_of_acme : OrderRoute
route_of_acme = record { shard_index = 1; symbol = acme }

replace_strands_example :
    (apply two_bids (replace move_bid) ≡ some (err duplicate_order_id, two_bids))
    × (Maps.lookup 7 (route 2 ((7, route_of_acme) ∷ (9, route_of_acme) ∷ []) (replace move_bid)).1
        ≡ none)
unfolding Maps.lookup has_order
replace_strands_example =
    replace_strands 2 ((7, route_of_acme) ∷ (9, route_of_acme) ∷ []) move_bid route_of_acme two_bids
      refl (omega arith) refl refl

abbrev route_of_bid : OrderRoute
route_of_bid = record { shard_index = shard_for_symbol acme 2; symbol = acme }

abbrev routed_bid : Threads
routed_bid = record {
  pipeline = record two_shards { order_route = Maps.assign bid.order_id route_of_bid [] };
  in_demux = some (shard_for_symbol acme 2, queued route_of_bid (add bid) no_trace);
  in_process = none ∷ none ∷ [];
}

-- The network thread has routed an order and not yet pushed it.
abbrev one_routed : Running 2 routed_bid
unfolding route new_pipeline
one_routed =
    step (record { pipeline = two_shards; in_demux = none; in_process = none ∷ none ∷ [] })
      routed_bid (start two_shards refl)
      (found_route bid_bytes (add bid) route_of_bid (Maps.assign bid.order_id route_of_bid [])
        no_trace refl (decode-wire (add bid) [] bid-IsAdd) refl)

Running-StaysHome_example : StaysHome 2 routed_bid
Running-StaysHome_example = Running-StaysHome 2 routed_bid one_routed

refused_unchanged_example : two_bids ≡ two_bids
unfolding Maps.lookup has_order
refused_unchanged_example =
    refused_unchanged two_bids two_bids (replace move_bid) duplicate_order_id
      (replace_strands 2 ((7, route_of_acme) ∷ (9, route_of_acme) ∷ []) move_bid route_of_acme
        two_bids refl (omega arith) refl refl).0

busy-IsReady : (j : ℕ) (s : Shard) → get_elem? busy.shards j ≡ some s → IsReady (λ t. []) s
busy-IsReady zero s e =
    subst (IsReady (λ t. [])) (some-injective new_shard s e)
      (record { tracks = empty-Tracks; small = tt })
busy-IsReady (suc zero) s e =
    subst (IsReady (λ t. [])) (some-injective busy_shard s e)
      (record { tracks = empty-Tracks; small = (omega arith, (tt, tt)) })
busy-IsReady (suc (suc j)) s e = absurd (cc e)

process_pending_lem_example :
    (p' : Pipeline) × (process_pending (λ i j. j) busy ≡ some p')
    × (length p'.shards ≡ 2)
    × ((j : ℕ) (s : Shard) → get_elem? busy.shards j ≡ some s → IsDrained (λ i t. []) j p' s)
process_pending_lem_example = process_pending_lem (λ i j. j) (λ i t. []) busy busy-IsReady
