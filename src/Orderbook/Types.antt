-- ===== src/Orderbook/Types.antt =====
-- orderbook/order_book.hpp: the types of the order book.
use low_latency_market_data.Common.{
  ℕ, ◌+◌, ◌≡◌, List, [], ◌∷◌, Option, true, false, ltb_ℤ, set, ℤ, arith,
}
use low_latency_market_data.Common.Ordered.{Compare}
use low_latency_market_data.Protocol.Messages.{Side}

pub data ApplyError : Type 0 where
  order_not_found executed_quantity_exceeds_remaining duplicate_order_id : ApplyError

pub record RestingOrder : Type 0 where
  pub order_id : ℕ
  pub side : Side
  pub price : ℤ
  pub quantity : ℕ

pub record PriceLevelView : Type 0 where
  pub price : ℤ
  pub total_quantity : ℕ
  pub order_count : ℕ

pub record BestBidAsk : Type 0 where
  pub bid : Option PriceLevelView
  pub ask : Option PriceLevelView

pub record LevelDelta : Type 0 where
  pub side : Side
  pub price : ℤ
  pub total_quantity : ℕ

-- `deltas` is an array of two.
pub record ApplyResult : Type 0 where
  pub deltas : List LevelDelta
  pub count : ℕ

abbrev pub no_delta : LevelDelta
no_delta = record { side = 0; price = ℤ.pos 0; total_quantity = 0 }

abbrev pub no_result : ApplyResult
no_result = record { deltas = no_delta ∷ no_delta ∷ []; count = 0 }

-- `ApplyResult::add`
abbrev pub add_delta : ApplyResult → Side → ℤ → ℕ → ApplyResult
add_delta r side price total = record {
  deltas = set r.deltas r.count (record { side = side; price = price; total_quantity = total });
  count = r.count + 1;
}

pub record DepthSnapshot : Type 0 where
  pub bids : List PriceLevelView
  pub asks : List PriceLevelView

-- A node of a level's std::list: its address is what an iterator to it holds.
pub record Node : Type 0 where
  pub addr : ℕ
  pub order : RestingOrder

pub record Level : Type 0 where
  pub total_quantity : ℕ
  pub orders : List Node

pub record OrderLocation : Type 0 where
  pub side : Side
  pub price : ℤ
  pub it : ℕ

pub ltb_irrefl : (a : ℤ) → ltb_ℤ a a ≡ false
ltb_irrefl a = ground arith

pub ltb_trans : (a b c : ℤ) → ltb_ℤ a b ≡ true → ltb_ℤ b c ≡ true → ltb_ℤ a c ≡ true
ltb_trans a b c h k = ground arith

pub ltb_connected : (a b : ℤ) → ltb_ℤ a b ≡ false → ltb_ℤ b a ≡ false → a ≡ b
ltb_connected a b h k = ground arith

-- std::less and std::greater on prices.
abbrev pub ascending : Compare ℤ
ascending = record {
  less = ltb_ℤ;
  irrefl = ltb_irrefl;
  trans = ltb_trans;
  connected = ltb_connected;
}

abbrev pub descending : Compare ℤ
descending = record {
  less = λ a b. ltb_ℤ b a;
  irrefl = ltb_irrefl;
  trans = λ a b c h k. ltb_trans c b a k h;
  connected = λ a b h k. ltb_connected a b k h;
}

abbrev pub Levels : Type 0
Levels = List (ℤ × Level)
