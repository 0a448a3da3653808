-- ===== src/Orderbook/Book/Replaces.antt =====
-- A replacement: the book against the abstract book.
use low_latency_market_data.Common.{◌≡◌, refl, List, none, arith, Option-cases, inl, inr}
use low_latency_market_data.Common.Words.{IsU32}
use low_latency_market_data.Common.Maps.{nat_eq}
use low_latency_market_data.Protocol.Messages.{ReplaceOrder}
use low_latency_market_data.Orderbook.Types.{
  Node, RestingOrder, order_not_found, duplicate_order_id,
}
use low_latency_market_data.Orderbook.Spec.{spec_replace}
use low_latency_market_data.Orderbook.Book.{Book, apply_replace, replace_located}
use low_latency_market_data.Orderbook.Book.Arrivals.{find_id, remove_id}
use low_latency_market_data.Orderbook.Book.Arrivals.Ids.{find_id-remove}
use low_latency_market_data.Orderbook.Book.Represents.{
  Represents, new_node, insert_resting_order-Represents,
}
use low_latency_market_data.Orderbook.Book.Departures.{remove_resting_order-Represents}
use low_latency_market_data.Orderbook.Book.Forget.{
  orders, find_order-orders, remove_order-orders, level_total-orders, orders-append,
}
use low_latency_market_data.Orderbook.Book.Refine.{Simulates, refused, entered}

module _ {b : Book} {flat : List Node} (r : Represents b flat) where
  still_free :
      (m : ReplaceOrder)
      → find_id m.new_order_id flat ≡ none
      → find_id m.new_order_id (remove_id m.old_order_id flat) ≡ none
  still_free m fresh = ground (arith, find_id-remove m.new_order_id m.old_order_id flat r.distinct)

  pub replace-Simulates :
      (m : ReplaceOrder)
      → IsU32 m.quantity
      → Simulates (apply_replace b m) (spec_replace (orders flat) m)
  unfolding apply_replace spec_replace replace_located
  replace-Simulates m small = elim (Option-cases (find_id m.old_order_id flat)) [
    | inl missing ↦
        rw (r.index m.old_order_id, find_order-orders m.old_order_id flat, missing)
          (refused r order_not_found)
    | inr (n, here) ↦ elim (Option-cases (find_id m.new_order_id flat)) [
      | inr (n', taken) ↦
          rw
            (
              r.index m.old_order_id,
              find_order-orders m.old_order_id flat,
              here,
              r.index m.new_order_id,
              find_order-orders m.new_order_id flat,
              taken,
            )
            (refused r duplicate_order_id)
      | inl fresh ↦
          let (b', run, r') = remove_resting_order-Represents r m.old_order_id n here in
          let o : RestingOrder = record {
            order_id = m.new_order_id;
            side = n.order.side;
            price = m.price;
            quantity = m.quantity;
          } in
          let (t, r'') = insert_resting_order-Represents r' o small (still_free m fresh) in
          rw
            (
              r.index m.old_order_id,
              find_order-orders m.old_order_id flat,
              here,
              r.index m.new_order_id,
              find_order-orders m.new_order_id flat,
              fresh,
              run,
            )
            (rw
              (
                t,
                remove_order-orders m.old_order_id flat,
                level_total-orders n.order.side n.order.price (remove_id m.old_order_id flat),
                entered r' o,
              )
              (_, refl, _, r'', orders-append (remove_id m.old_order_id flat) (new_node r' o)))
    ]
  ]
