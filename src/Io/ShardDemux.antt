-- ===== src/Io/ShardDemux.antt =====
-- io/shard_demux.hpp and shard_demux.cpp: the shards, the routing table, and `demux`, which puts a
-- message on the queue of its shard. `none` is undefined behaviour: an index out of range. The readings
-- of the clock are arguments. Calls are taken one after the other, as `order_route_mutex_` orders what
-- they do to the routing table.
pub mod Routing
pub mod Dispatch
pub mod Stranded
use low_latency_market_data.Common.{
  ℕ, zero, suc, ◌+◌, ◌%◌, List, [], ◌∷◌, ◌++◌, Option, none, some, Bool, true, false, Expected, ok,
  err, ◌>>=◌, is_some, not, if◌then◌else◌, length, get_elem?, set, replicate, ltb, ◌==◌, ◌||◌,
}
use low_latency_market_data.Common.Maps
use low_latency_market_data.Common.Maps.{nat_eq, list_eq}
use low_latency_market_data.Protocol.Messages.{
  Symbol, AddOrder, CancelOrder, ExecuteOrder, ReplaceOrder, DecodedMessage, add, cancel, execute,
  replace, hash_symbol,
}
use low_latency_market_data.Protocol.Decoder.{decode}
use low_latency_market_data.Orderbook.Types.{ApplyError, ApplyResult, LevelDelta, no_delta}
use low_latency_market_data.Orderbook.Book.{Book, empty_book, apply, has_order}
use low_latency_market_data.Concurrency.Queue
use low_latency_market_data.Concurrency.Queue.{Queue, empty_queue}
use low_latency_market_data.Concurrency.GapDetector.{GapDetector, new_detector, observe}
use low_latency_market_data.Concurrency.LatencyTrace.{LatencyTrace, no_trace}
use low_latency_market_data.Publisher.BookDelta.{BookDelta, delta_queue_capacity}

pub data DemuxError : Type 0 where
  decode_failed unroutable_order_id : DemuxError

-- `kMaxShards`
abbrev pub max_shards : ℕ
max_shards = 16

-- `kShardQueueCapacity`
abbrev pub shard_queue_capacity : ℕ
shard_queue_capacity = 4096

pub record QueuedMessage : Type 0 where
  pub symbol : Symbol
  pub message : DecodedMessage
  pub trace : LatencyTrace

pub record Shard : Type 0 where
  pub queue : Queue QueuedMessage
  pub gap_detector : GapDetector
  pub books : List (Symbol × Book)
  pub output_queue : Queue BookDelta

pub record OrderRoute : Type 0 where
  pub shard_index : ℕ
  pub symbol : Symbol

abbrev pub Routes : Type 0
Routes = List (ℕ × OrderRoute)

pub record Pipeline : Type 0 where
  pub shards : List Shard
  pub order_route : Routes

-- The index of the shard, where there are shards.
pub shard_for_symbol : Symbol → ℕ → ℕ
shard_for_symbol symbol num_shards = hash_symbol symbol % num_shards

-- `shard_for_symbol` for any number of shards: `none` is the division by zero. A pipeline has shards, so
-- `demux` needs only the one above.
unfoldable pub checked_shard : Symbol → ℕ → Option ℕ
checked_shard symbol num_shards =
    if num_shards == 0 then none else some (shard_for_symbol symbol num_shards)

abbrev pub new_shard : Shard
new_shard = record {
  queue = empty_queue;
  gap_detector = new_detector;
  books = [];
  output_queue = empty_queue;
}

-- The constructor; `none` is the exception std::invalid_argument.
unfoldable pub new_pipeline : ℕ → Option Pipeline
new_pipeline num_shards =
    if num_shards == 0 || ltb max_shards num_shards
    then none
    else some (record { shards = replicate num_shards new_shard; order_route = [] })

-- The part of `demux` under the lock, by the type of the message: the route of the message, and the
-- routing table after it.
pub route_found : Option OrderRoute → Routes → Expected DemuxError OrderRoute × Routes
route_found none routes = (err unroutable_order_id, routes)
route_found (some r) routes = (ok r, routes)

pub replace_found :
    ReplaceOrder → Option OrderRoute → Routes → Expected DemuxError OrderRoute × Routes
replace_found m none routes = (err unroutable_order_id, routes)
replace_found m (some r) routes =
    (ok r, Maps.assign m.new_order_id r (Maps.erase m.old_order_id routes))

pub cancel_found :
    CancelOrder → Option OrderRoute → Routes → Expected DemuxError OrderRoute × Routes
cancel_found m none routes = (err unroutable_order_id, routes)
cancel_found m (some r) routes = (ok r, Maps.erase m.order_id routes)

unfoldable pub route : ℕ → Routes → DecodedMessage → Expected DemuxError OrderRoute × Routes
route n routes (add m) =
    let r : OrderRoute = record { shard_index = shard_for_symbol m.symbol n; symbol = m.symbol } in
    (ok r, Maps.assign m.order_id r routes)
route n routes (replace m) = replace_found m (Maps.lookup m.old_order_id routes) routes
route n routes (cancel m) = cancel_found m (Maps.lookup m.order_id routes) routes
route n routes (execute m) = route_found (Maps.lookup m.order_id routes) routes

abbrev pub enqueue : QueuedMessage → Shard → Shard
enqueue qm s = record s { queue = Queue.push shard_queue_capacity qm s.queue }

-- The rest of `demux`.
pub deliver :
    Pipeline
    → DecodedMessage
    → LatencyTrace
    → Expected DemuxError OrderRoute × Routes
    → Option (Expected DemuxError ℕ × Pipeline)
deliver p m trace (err e, routes) = some (err e, record p { order_route = routes })
deliver p m trace (ok r, routes) = do
  s ← get_elem? p.shards r.shard_index
  let qm : QueuedMessage = record { symbol = r.symbol; message = m; trace = trace }
  some (
    ok r.shard_index,
    record { shards = set p.shards r.shard_index (enqueue qm s); order_route = routes },
  )

-- `t_decoded` and `t_demuxed` are the two readings of the clock that `demux` takes.
unfoldable pub demux : Pipeline → List ℕ → ℕ → ℕ → ℕ → Option (Expected DemuxError ℕ × Pipeline)
demux p raw t_received t_decoded t_demuxed = do
  decoded ← decode raw
  elim decoded [
    | err e ↦ some (err decode_failed, p)
    | ok m ↦
        deliver p m
          (record no_trace {
            t_received = t_received;
            t_decoded = t_decoded;
            t_demuxed = t_demuxed;
          })
          (route (length p.shards) p.order_route m)
  ]
