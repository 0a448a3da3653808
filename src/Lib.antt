-- ===== src/Lib.antt =====
-- A low-latency market data feed handler: binary messages about orders come in, each is decoded, routed
-- to the shard of its symbol, applied to that symbol's limit order book, and the price levels that it
-- changed go out to a publisher. This library models the handler's logic, and
-- states what makes each part correct.
--
-- The parts, and the files that model them:
-- * protocol/ is Protocol. Protocol.ByteOrder is byte_order.hpp (put_u8 ... get_i64 over a list of bytes
--   and an offset), Protocol.Messages is message_types.hpp, Protocol.Encoder is encoder.cpp (one
--   function per overload of `encode`, and `encode` on the variant), Protocol.Decoder is decoder.cpp.
-- * orderbook/order_book.hpp and order_book.cpp are Orderbook.Types and Orderbook.Book: `Book` is
--   OrderBookT, `apply_add`, `apply_cancel`, `apply_execute` and `apply_replace` are its overloads of
--   `apply`, Orderbook.Book.Views has `best_bid_ask` and `depth_snapshot`. A std::map is a list of entries
--   in the order of its comparator (Common.Ordered), an unordered_map a list of entries (Common.Maps), a
--   std::list a list of nodes, each with the address that an iterator holds. Orderbook.Spec is the
--   abstract book: one list of orders in the order of their arrival.
-- * orderbook/object_pool.hpp is Orderbook.ObjectPool (`Pool` is FixedBlockPool, with the free list
--   threaded through the blocks) and Orderbook.PoolAllocator (PoolAllocator for one type of nodes, with
--   the shard index of the running thread); the destructor of ShardedPipeline is Io.Teardown.
-- * concurrency/gap_detector.hpp is Concurrency.GapDetector (`observe`, `resync`).
-- * concurrency/spsc_ring_buffer.hpp is Concurrency.RingBuffer: `Push` and `Pop` are the accesses of `push`
--   and `try_pop` to shared variables, one constructor each, and `Reachable` are the states that two
--   threads reach by any interleaving of them. Concurrency.Queue is the buffer as calls that do not
--   overlap see it; the shards use that one.
-- * io/shard_demux.cpp is Io.ShardDemux (`demux`, with the routing table) and Io.ProcessShard
--   (`process_shard`, `process_pending`), one call after the other, and Io.Interleaved, where the network
--   thread and the decoder threads take turns on the routing table; concurrency/latency_trace.hpp and
--   publisher/book_delta.hpp are the records that travel along (Concurrency.LatencyTrace,
--   Publisher.BookDelta).
-- * io/pipeline_runner.cpp is Io.PipelineRunner (start, join, stop and the affinity hints) and Io.Stage:
--   the loop of a decoder or publisher thread against the thread that feeds it, with `wait_for_data` and
--   `notify_waiters` of the ring buffer. `Upstream` are the steps of the feeding thread, `Downstream`
--   those of the loop, both at the grain of Concurrency.RingBuffer, whose steps they contain.
-- * io/feed_generator.cpp is Io.FeedGenerator, io/async_network_reader.cpp and .hpp are Io.NetworkReader: the
--   coroutine by its resumptions, and the reactor that makes them.
-- * publisher/publisher.cpp is Publisher.Format (`format_delta_line`) and Publisher.Sinks (the sinks and
--   `drain_publisher_queue`); text is a list of bytes (Common.Text).
-- * affinity/thread_affinity_linux.cpp is Affinity.
-- Tests has the theorems at concrete inputs.
--
-- Conventions. Unsigned integers wrap at their width (Common.Words); a price is an integer. An
-- `Option` around a result is undefined behaviour when it is `none`: an iterator or pointer that is
-- not valid, an index out of range, a division by zero, std::unreachable(). In Io.PipelineRunner, and for
-- constructors, it is an exception, and in `join` a wait without end. std::expected is `Expected`. Readings of the
-- clock and random draws are arguments, and so are double with its comparison, and the calls of the
-- operating system. Loops recurse on the list or the count that they run over; only the reactor runs
-- on fuel, and as many resumptions as there are messages are enough. The loops of the
-- threads are step relations.
-- The ring buffer's counters are 64 bits wide, and its theorems are about fewer than 2^64 pushes.
--
-- Not modelled: what a file stream does with its bytes, the macOS affinity call, sleeping, the log line of
-- the gap detector, memory orders weaker than sequential consistency, and benchmarks. A book is
-- modelled without its allocator, so no allocation fails in it. In Io.Interleaved a
-- section under the routing table's mutex is one step.
pub mod Common
pub mod Affinity
pub mod Protocol
pub mod Orderbook
pub mod Concurrency
pub mod Publisher
pub mod Io
pub mod Tests
