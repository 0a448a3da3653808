-- ===== src/Tests/Books.antt =====
-- Order books and gap detectors on concrete messages.
use low_latency_market_data.Common.{
  ℕ, ◌≡◌, refl, List, [], ◌∷◌, ◌++◌, ok, ℤ, some, true, false, arith, All, ◌<◌, ◌≤◌,
}
use low_latency_market_data.Protocol.Messages.{AddOrder, DecodedMessage, add}
use low_latency_market_data.Orderbook.Types.{Node, no_result, add_delta}
use low_latency_market_data.Orderbook.Spec.{spec, spec_add}
use low_latency_market_data.Orderbook.Book.{Book, empty_book, apply}
use low_latency_market_data.Orderbook.Book.Represents.{Represents, empty-Represents}
use low_latency_market_data.Orderbook.Book.Forget.{orders}
use low_latency_market_data.Orderbook.Book.Refine.{Simulates}
use low_latency_market_data.Orderbook.Book.Contract.{
  HasQuantity, apply_refines, apply_all, spec_all, apply_all_refines,
}
use low_latency_market_data.Orderbook.Book.Views.{best_bid_ask, depth_snapshot}
use low_latency_market_data.Orderbook.Book.Views.Best.{IsBest, best_bid_ask_lem}
use low_latency_market_data.Orderbook.Book.Views.Depth.{IsDepth, depth_snapshot_lem}
use low_latency_market_data.Orderbook.Book.Overflow.{arriving, add_wraps}
use low_latency_market_data.Concurrency.GapDetector.{
  live, observe, observe_next, observe_all, is_stale,
}
use low_latency_market_data.Concurrency.GapDetector.Classify.{Observed, observe_lem}
use low_latency_market_data.Concurrency.GapDetector.Feed.{arrived, seen, live→arrived}
use low_latency_market_data.Tests.Data.{bid, day}

day-HasQuantity : All HasQuantity day
day-HasQuantity = (omega arith, (omega arith, (tt, (omega arith, (tt, tt)))))

-- What a day ends with.
abbrev Ended : List DecodedMessage → Type 0
Ended ms =
    (b' : Book) × (apply_all empty_book ms ≡ some ((spec_all [] ms).0, b'))
    × (flat' : List Node) × Represents b' flat'
    × (orders flat' ≡ (spec_all [] ms).1)

apply_all_refines_example :
    (b' : Book) × (apply_all empty_book day ≡ some ((spec_all [] day).0, b'))
    × (flat' : List Node) × Represents b' flat'
    × (orders flat' ≡ (spec_all [] day).1)
apply_all_refines_example = apply_all_refines day day-HasQuantity

apply_refines_example : Simulates (apply empty_book (add bid)) (spec [] (add bid))
apply_refines_example = apply_refines empty_book [] (add bid) empty-Represents (omega arith)

abbrev evening_run : Ended day
evening_run = apply_all_refines day day-HasQuantity

abbrev evening : Book
evening = evening_run.0

abbrev evening_nodes : List Node
evening_nodes = evening_run.2

best_bid_ask_lem_example :
    IsBest true (orders evening_nodes) (best_bid_ask evening).bid
    × IsBest false (orders evening_nodes) (best_bid_ask evening).ask
best_bid_ask_lem_example = best_bid_ask_lem evening evening_nodes evening_run.3

depth_snapshot_lem_example :
    IsDepth true (orders evening_nodes) 2 (depth_snapshot evening 2).bids
    × IsDepth false (orders evening_nodes) 2 (depth_snapshot evening 2).asks
depth_snapshot_lem_example = depth_snapshot_lem evening evening_nodes 2 evening_run.3

-- One order that fills the total of its level to the last.
abbrev large_run : Ended (add (record bid { quantity = 4294967295 }) ∷ [])
large_run = apply_all_refines (add (record bid { quantity = 4294967295 }) ∷ []) (omega arith, tt)

abbrev last_straw : AddOrder
last_straw = record bid { order_id = 8; quantity = 1 }

add_wraps_example :
    (b' : Book) × (apply large_run.0 (add last_straw)
      ≡ some (ok (add_delta no_result 0 (ℤ.pos 100) 0), b'))
    × (flat' : List Node) × Represents b' flat'
    × (orders flat' ≡ orders large_run.2 ++ arriving last_straw ∷ [])
unfolding spec_all spec spec_add
add_wraps_example =
    add_wraps large_run.0 large_run.2 last_straw large_run.3 (omega arith) (rw large_run.4)
      (rw large_run.4)

observe_lem_example :
    Observed (seen 4 live 0) 9 (observe (seen 4 live 0) 9).0 (observe (seen 4 live 0) 9).1
observe_lem_example = observe_lem (seen 4 live 0) 9 refl (omega arith)

still_live : is_stale (observe_all (seen 4 live 0) (5 ∷ 3 ∷ 6 ∷ [])) ≡ false
unfolding observe_all observe observe_next is_stale
still_live = refl

live→arrived_example :
    (is_stale (seen 4 live 0) ≡ false)
    × ((k : ℕ)
        → 4 < k
        → k ≤ (observe_all (seen 4 live 0) (5 ∷ 3 ∷ 6 ∷ [])).last
        → arrived k (5 ∷ 3 ∷ 6 ∷ []) ≡ true)
live→arrived_example =
    live→arrived (seen 4 live 0) (5 ∷ 3 ∷ 6 ∷ []) refl (omega arith)
      (omega arith, (omega arith, (omega arith, tt))) still_live
