-- ===== src/Io/ShardDemux/Stranded.antt =====
-- A replacement that the book refuses, and the routing table.
use low_latency_market_data.Common.{ℕ, ◌≡◌, ◌≢◌, none, some, true, false, err, ◌==◌, ==_refl, arith}
use low_latency_market_data.Common.Maps
use low_latency_market_data.Common.Maps.{nat_eq}
use low_latency_market_data.Protocol.Messages.{ReplaceOrder, replace}
use low_latency_market_data.Orderbook.Types.{duplicate_order_id}
use low_latency_market_data.Orderbook.Book.{Book, has_order, apply}
use low_latency_market_data.Orderbook.Book.Refusals.{replace_taken}
use low_latency_market_data.Io.ShardDemux.{OrderRoute, Routes, route, replace_found}

-- When a book has both orders that a replacement names, it refuses the replacement and stays as it
-- is, with the old order in it; but the routing table has lost the old order's route, since `demux`
-- removes it before the book sees the message.
pub replace_strands :
    (n : ℕ) (routes : Routes) (m : ReplaceOrder) (r : OrderRoute) (b : Book)
    → Maps.lookup m.old_order_id routes ≡ some r
    → m.new_order_id ≢ m.old_order_id
    → has_order b m.old_order_id ≡ true
    → has_order b m.new_order_id ≡ true
    → (apply b (replace m) ≡ some (err duplicate_order_id, b))
      × (Maps.lookup m.old_order_id (route n routes (replace m)).1 ≡ none)
unfolding route replace_found
replace_strands n routes m r b there different old new =
    let other : (m.new_order_id == m.old_order_id) ≡ false = ground arith in
    (
      replace_taken b m old new,
      rw (
        there,
        Maps.lookup-assign m.old_order_id m.new_order_id r (Maps.erase m.old_order_id routes),
        other,
        Maps.lookup-erase m.old_order_id m.old_order_id routes,
        ==_refl m.old_order_id,
      ),
    )
