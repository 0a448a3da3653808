-- ===== src/Orderbook/Book/Views.antt =====
-- orderbook/order_book.cpp: `best_bid_ask` and `depth_snapshot`, which read a book.
pub mod Best
pub mod Depth
use low_latency_market_data.Common.{
  ℕ, ◌+◌, List, [], ◌∷◌, Option, none, some, leb, if◌then◌else◌, length, ℤ,
}
use low_latency_market_data.Orderbook.Types.{
  PriceLevelView, BestBidAsk, DepthSnapshot, Level, Levels,
}
use low_latency_market_data.Orderbook.Book.{Book}

pub level_view : ℤ × Level → PriceLevelView
level_view (price, level) = record {
  price = price;
  total_quantity = level.total_quantity;
  order_count = length level.orders;
}

-- `*m.begin()`, if there is one.
pub first_level : Levels → Option PriceLevelView
first_level [] = none
first_level (e ∷ m) = some (level_view e)

pub best_bid_ask : Book → BestBidAsk
best_bid_ask b = record { bid = first_level b.bids; ask = first_level b.asks }

-- The loop over a map, with `count`.
pub depth_loop : ℕ → ℕ → Levels → List PriceLevelView
depth_loop levels count [] = []
depth_loop levels count (e ∷ m) =
    let rest = depth_loop levels (count + 1) m in
    if leb levels count then [] else level_view e ∷ rest

pub depth_snapshot : Book → ℕ → DepthSnapshot
depth_snapshot b levels = record {
  bids = depth_loop levels 0 b.bids;
  asks = depth_loop levels 0 b.asks;
}
