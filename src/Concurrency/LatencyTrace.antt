-- ===== src/Concurrency/LatencyTrace.antt =====
-- concurrency/latency_trace.hpp: the readings of the clock that travel with a message, in ticks.
use low_latency_market_data.Common.{ℕ}

pub record LatencyTrace : Type 0 where
  pub t_received : ℕ
  pub t_decoded : ℕ
  pub t_demuxed : ℕ
  pub t_dequeued : ℕ
  pub t_book_updated : ℕ

abbrev pub no_trace : LatencyTrace
no_trace = record {
  t_received = 0;
  t_decoded = 0;
  t_demuxed = 0;
  t_dequeued = 0;
  t_book_updated = 0;
}
