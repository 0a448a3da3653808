-- ===== src/Publisher/BookDelta.antt =====
-- publisher/book_delta.hpp: a change of one price level of one symbol's book.
use low_latency_market_data.Common.{ℕ, ℤ}
use low_latency_market_data.Protocol.Messages.{Symbol, Side}
use low_latency_market_data.Concurrency.LatencyTrace.{LatencyTrace}

pub record BookDelta : Type 0 where
  pub symbol : Symbol
  pub side : Side
  pub price : ℤ
  pub total_quantity : ℕ
  pub seq_num : ℕ
  pub timestamp : ℕ
  pub trace : LatencyTrace

-- `kDeltaQueueCapacity`
abbrev pub delta_queue_capacity : ℕ
delta_queue_capacity = 4096
