-- ===== src/Io/Interleaved.antt =====
-- io/shard_demux.cpp as io/pipeline_runner.cpp runs it: the network thread in `demux` and one decoder
-- thread for each shard in `process_shard`, on one pipeline. A call of `demux` is two steps: what it does
-- to the routing table under the mutex, and the push on the shard's queue. A round of the loop of
-- `process_shard` is two steps as well: from `try_pop` to the book and the deltas, and what it does to
-- the routing table under the mutex. Any step of one thread can stand between two steps of another. A
-- call of `demux` whose bytes do not decode changes nothing and is no step. The source pushes the deltas
-- after it touched the routing table; no step here reads the queue that they go to, so they stand in the
-- first step.
pub mod Placement
pub mod Home
use low_latency_market_data.Common.{
  ℕ, ◌+◌, ◌≡◌, List, [], ◌∷◌, Option, none, some, Expected, ok, err, length, get_elem?, set,
  replicate,
}
use low_latency_market_data.Protocol.Messages.{Symbol, DecodedMessage}
use low_latency_market_data.Protocol.Decoder.{decode}
use low_latency_market_data.Concurrency.LatencyTrace.{LatencyTrace}
use low_latency_market_data.Io.ShardDemux.{
  DemuxError, QueuedMessage, Shard, OrderRoute, Routes, Pipeline, new_pipeline, route, enqueue,
}
use low_latency_market_data.Io.ProcessShard.{clean_route, book_for, process_message}

-- The pipeline; the message that `demux` has routed and not yet pushed, with the index of its shard; and,
-- for each shard, the symbol and message that are applied and whose route is not yet looked after.
pub record Threads : Type 0 where
  pub pipeline : Pipeline
  pub in_demux : Option (ℕ × QueuedMessage)
  pub in_process : List (Option (Symbol × DecodedMessage))

abbrev pub queued : OrderRoute → DecodedMessage → LatencyTrace → QueuedMessage
queued r m trace = record { symbol = r.symbol; message = m; trace = trace }

-- The shard when `try_pop` has taken its oldest message.
abbrev pub popped : List QueuedMessage → Shard → Shard
popped rest s = record s { queue = record (s.queue) { items = rest } }

pub data Step (t : Threads) : Threads → Type 0 where
  found_route :
      (raw : List ℕ) (m : DecodedMessage) (r : OrderRoute) (routes : Routes) (trace : LatencyTrace)
      → t.in_demux ≡ none
      → decode raw ≡ some (ok m)
      → route (length t.pipeline.shards) t.pipeline.order_route m ≡ (ok r, routes)
      → Step t (record t {
        pipeline = record (t.pipeline) { order_route = routes };
        in_demux = some (r.shard_index, queued r m trace);
      })
  unroutable :
      (raw : List ℕ) (m : DecodedMessage) (e : DemuxError) (routes : Routes)
      → t.in_demux ≡ none
      → decode raw ≡ some (ok m)
      → route (length t.pipeline.shards) t.pipeline.order_route m ≡ (err e, routes)
      → Step t (record t { pipeline = record (t.pipeline) { order_route = routes } })
  delivered :
      (i : ℕ) (qm : QueuedMessage) (s : Shard)
      → t.in_demux ≡ some (i, qm)
      → get_elem? t.pipeline.shards i ≡ some s
      → Step t (record t {
        pipeline = record (t.pipeline) { shards = set t.pipeline.shards i (enqueue qm s) };
        in_demux = none;
      })
  applied :
      (i : ℕ) (s : Shard) (qm : QueuedMessage) (rest : List QueuedMessage)
      (t_dequeued t_book_updated : ℕ) (s' : Shard) (routes : Routes)
      → get_elem? t.in_process i ≡ some none
      → get_elem? t.pipeline.shards i ≡ some s
      → s.queue.items ≡ qm ∷ rest
      → process_message t_dequeued t_book_updated qm (popped rest s) t.pipeline.order_route
        ≡ some (s', routes)
      → Step t (record t {
        pipeline = record (t.pipeline) { shards = set t.pipeline.shards i s' };
        in_process = set t.in_process i (some (qm.symbol, qm.message));
      })
  cleaned :
      (i : ℕ) (s : Shard) (symbol : Symbol) (m : DecodedMessage)
      → get_elem? t.in_process i ≡ some (some (symbol, m))
      → get_elem? t.pipeline.shards i ≡ some s
      → Step t (record t {
        pipeline = record (t.pipeline) {
          order_route = clean_route m (book_for symbol s.books) t.pipeline.order_route;
        };
        in_process = set t.in_process i none;
      })

-- What the threads reach on a new pipeline of `num_shards` shards.
pub data Running (num_shards : ℕ) : Threads → Type 0 where
  start :
      (p : Pipeline)
      → new_pipeline num_shards ≡ some p
      → Running num_shards
          (record { pipeline = p; in_demux = none; in_process = replicate num_shards none })
  step : (t t' : Threads) → Running num_shards t → Step t t' → Running num_shards t'
