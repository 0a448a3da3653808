-- ===== src/Tests/Data.antt =====
-- The messages of the tests.
use low_latency_market_data.Common.{ℤ, List, [], ◌∷◌}
use low_latency_market_data.Protocol.Messages.{
  AddOrder, CancelOrder, ExecuteOrder, ReplaceOrder, DecodedMessage, Symbol, buy, sell, add, cancel,
  execute, replace,
}

abbrev pub acme : Symbol
acme = 65 ∷ 67 ∷ 77 ∷ 69 ∷ 0 ∷ 0 ∷ 0 ∷ 0 ∷ []

abbrev pub bid : AddOrder
bid = record {
  seq_num = 1;
  order_id = 7;
  symbol = acme;
  side = buy;
  price = ℤ.pos 100;
  quantity = 10;
  timestamp = 5;
}

abbrev pub ask : AddOrder
ask = record {
  seq_num = 2;
  order_id = 8;
  symbol = acme;
  side = sell;
  price = ℤ.pos 101;
  quantity = 4;
  timestamp = 6;
}

abbrev pub fill_part : ExecuteOrder
fill_part = record { seq_num = 3; order_id = 7; executed_quantity = 3; timestamp = 7 }

abbrev pub move_bid : ReplaceOrder
move_bid = record {
  seq_num = 4;
  old_order_id = 7;
  new_order_id = 9;
  price = ℤ.pos 99;
  quantity = 2;
  timestamp = 8;
}

abbrev pub drop_ask : CancelOrder
drop_ask = record { seq_num = 5; order_id = 8; timestamp = 9 }

abbrev pub day : List DecodedMessage
day = add bid ∷ add ask ∷ execute fill_part ∷ replace move_bid ∷ cancel drop_ask ∷ []
