-- ===== src/Io/ProcessShard.antt =====
-- io/shard_demux.cpp: `process_shard`, which takes a shard's queued messages to their books, and
-- `process_pending`. `none` is undefined behaviour.
pub mod Isolation
pub mod Drain
pub mod Pending
use low_latency_market_data.Common.{
  ℕ, zero, suc, ◌+◌, List, [], ◌∷◌, Option, none, some, Bool, true, false, Expected, ok, err, ◌>>=◌,
  is_some, not, if◌then◌else◌, length, get_elem?, get_or, set, ◌==◌, ◌||◌,
}
use low_latency_market_data.Common.Maps
use low_latency_market_data.Common.Maps.{nat_eq, list_eq}
use low_latency_market_data.Protocol.Messages.{
  Symbol, AddOrder, CancelOrder, ExecuteOrder, ReplaceOrder, DecodedMessage, add, cancel, execute,
  replace,
}
use low_latency_market_data.Orderbook.Types.{ApplyError, ApplyResult, LevelDelta, no_delta}
use low_latency_market_data.Orderbook.Book.{Book, empty_book, apply, has_order}
use low_latency_market_data.Concurrency.Queue
use low_latency_market_data.Concurrency.Queue.{Queue}
use low_latency_market_data.Concurrency.GapDetector.{GapDetector, observe}
use low_latency_market_data.Concurrency.LatencyTrace.{LatencyTrace}
use low_latency_market_data.Publisher.BookDelta.{BookDelta, delta_queue_capacity}
use low_latency_market_data.Io.ShardDemux.{QueuedMessage, Shard, Routes, Pipeline}

abbrev pub seq_num : DecodedMessage → ℕ
seq_num (add m) = m.seq_num
seq_num (cancel m) = m.seq_num
seq_num (execute m) = m.seq_num
seq_num (replace m) = m.seq_num

abbrev pub timestamp : DecodedMessage → ℕ
timestamp (add m) = m.timestamp
timestamp (cancel m) = m.timestamp
timestamp (execute m) = m.timestamp
timestamp (replace m) = m.timestamp

abbrev pub book_delta : QueuedMessage → LevelDelta → BookDelta
book_delta qm level = record {
  symbol = qm.symbol;
  side = level.side;
  price = level.price;
  total_quantity = level.total_quantity;
  seq_num = seq_num qm.message;
  timestamp = timestamp qm.message;
  trace = qm.trace;
}

-- The loop over the deltas, from number `i` for `count` rounds.
pub push_deltas :
    QueuedMessage → List LevelDelta → (count i : ℕ) → Queue BookDelta → Queue BookDelta
push_deltas qm deltas zero i q = q
push_deltas qm deltas (suc count) i q =
    push_deltas qm deltas count (i + 1)
      (Queue.push delta_queue_capacity (book_delta qm (get_or deltas i no_delta)) q)

-- A rejected message has nothing to publish.
pub publish_result :
    QueuedMessage → Expected ApplyError ApplyResult → Queue BookDelta → Queue BookDelta
publish_result qm (err e) q = q
publish_result qm (ok r) q = push_deltas qm r.deltas r.count 0 q

-- The routing table after an order was executed that the book has no more.
unfoldable pub clean_route : DecodedMessage → Book → Routes → Routes
clean_route (add m) book routes = routes
clean_route (cancel m) book routes = routes
clean_route (execute m) book routes =
    if has_order book m.order_id then routes else Maps.erase m.order_id routes
clean_route (replace m) book routes = routes

-- `s.books[symbol]`
abbrev pub or_new : Option Book → Book
or_new none = empty_book
or_new (some b) = b

pub book_for : Symbol → List (Symbol × Book) → Book
book_for symbol books = or_new (Maps.lookup symbol books)

-- One round of the loop, for the message that `try_pop` gave.
unfoldable pub process_message :
    (t_dequeued t_book_updated : ℕ) → QueuedMessage → Shard → Routes → Option (Shard × Routes)
process_message t_dequeued t_book_updated qm s routes = do
  (result, book) ← apply (book_for qm.symbol s.books) qm.message
  let qm' : QueuedMessage = record qm {
    trace = record (qm.trace) { t_dequeued = t_dequeued; t_book_updated = t_book_updated };
  }
  some (
    record s {
      gap_detector = (observe s.gap_detector (seq_num qm.message)).1;
      books = Maps.assign qm.symbol book s.books;
      output_queue = publish_result qm' result s.output_queue;
    },
    clean_route qm.message book routes,
  )

-- The loop, over the messages that are queued when it starts; `clock` are the readings of the clock.
pub process_messages : (ℕ → ℕ) → ℕ → List QueuedMessage → Shard → Routes → Option (Shard × Routes)
process_messages clock i [] s routes = some (s, routes)
process_messages clock i (qm ∷ qms) s routes = do
  (s', routes') ← process_message (clock i) (clock (i + 1)) qm s routes
  process_messages clock (i + 2) qms s' routes'

pub process_shard : (ℕ → ℕ) → ℕ → Pipeline → Option (Bool × Pipeline)
process_shard clock shard_index p = do
  s ← get_elem? p.shards shard_index
  let emptied : Shard = record s { queue = record (s.queue) { items = [] } }
  (s', routes) ← process_messages clock 0 s.queue.items emptied p.order_route
  some (
    not (length s.queue.items == 0),
    record { shards = set p.shards shard_index s'; order_route = routes },
  )

-- The loop over the shards from number `i`, for `count` rounds.
pub process_from : (ℕ → ℕ → ℕ) → (count i : ℕ) → Pipeline → Option Pipeline
process_from clock zero i p = some p
process_from clock (suc count) i p = do
  (did_work, p') ← process_shard (clock i) i p
  process_from clock count (i + 1) p'

pub process_pending : (ℕ → ℕ → ℕ) → Pipeline → Option Pipeline
process_pending clock p = process_from clock (length p.shards) 0 p
