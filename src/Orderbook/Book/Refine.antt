-- ===== src/Orderbook/Book/Refine.antt =====
-- An order that is added or cancelled: the book against the abstract book.
use low_latency_market_data.Common.{
  ℕ, ◌≡◌, refl, sym, ap, ◌∙◌, List, [], ◌∷◌, ◌++◌, Option, some, Option-cases, inl, inr, err,
}
use low_latency_market_data.Common.Words.{IsU32}
use low_latency_market_data.Common.Maps.{nat_eq}
use low_latency_market_data.Protocol.Messages.{AddOrder, CancelOrder}
use low_latency_market_data.Orderbook.Types.{
  Node, RestingOrder, order_not_found, duplicate_order_id,
}
use low_latency_market_data.Orderbook.Spec.{
  Reply, spec_add, spec_cancel, enter, level_total, remove_order,
}
use low_latency_market_data.Orderbook.Book.{Book, Applied, apply_add, apply_cancel}
use low_latency_market_data.Orderbook.Book.Arrivals.{find_id, remove_id}
use low_latency_market_data.Orderbook.Book.Sides.{total_at}
use low_latency_market_data.Orderbook.Book.Represents.{
  Represents, is_bid, new_node, insert_resting_order-Represents,
}
use low_latency_market_data.Orderbook.Book.Departures.{remove_resting_order-Represents}
use low_latency_market_data.Orderbook.Book.Forget.{
  orders, find_order-orders, remove_order-orders, level_total-orders, orders-append,
}

-- The result of `apply` is that of the abstract book, and so are the orders that rest after it.
abbrev pub Simulates : Option Applied → Reply → Type 0
Simulates result (reply, os) =
    (b' : Book) × (result ≡ some (reply, b'))
    × (flat' : List Node) × Represents b' flat'
    × (orders flat' ≡ os)

module _ {b : Book} {flat : List Node} (r : Represents b flat) where
  pub refused : (e : _) → Simulates (some (err e, b)) (err e, orders flat)
  refused e = (b, refl, flat, r, refl)

  -- A new order at the end.
  pub entered :
      (o : RestingOrder)
      → level_total o.side o.price (enter (orders flat) o)
        ≡ total_at (is_bid o.side) o.price (flat ++ new_node r o ∷ [])
  entered o =
      ap (level_total o.side o.price) (sym (orders-append flat (new_node r o)))
      ∙ level_total-orders o.side o.price (flat ++ new_node r o ∷ [])

  pub add-Simulates :
      (m : AddOrder)
      → IsU32 m.quantity
      → Simulates (some (apply_add b m)) (spec_add (orders flat) m)
  unfolding apply_add spec_add
  add-Simulates m small = elim (Option-cases (find_id m.order_id flat)) [
    | inl fresh ↦
        let (t, r') = insert_resting_order-Represents r o small fresh in
        rw (r.index m.order_id, find_order-orders m.order_id flat, fresh, t, entered o)
          (_, refl, flat ++ new_node r o ∷ [], r', orders-append flat (new_node r o))
    | inr (n, old) ↦
        rw (r.index m.order_id, find_order-orders m.order_id flat, old) (refused duplicate_order_id)
  ]
    where
      o : RestingOrder
      o = record { order_id = m.order_id; side = m.side; price = m.price; quantity = m.quantity }

  -- The abstract level of an order after it has left.
  pub left_total :
      (id : ℕ) (n : Node)
      → level_total n.order.side n.order.price (remove_order id (orders flat))
        ≡ total_at (is_bid n.order.side) n.order.price (remove_id id flat)
  left_total id n =
      ap (level_total n.order.side n.order.price) (remove_order-orders id flat)
      ∙ level_total-orders n.order.side n.order.price (remove_id id flat)

  pub cancel-Simulates :
      (m : CancelOrder) → Simulates (apply_cancel b m) (spec_cancel (orders flat) m)
  unfolding apply_cancel spec_cancel
  cancel-Simulates m = elim (Option-cases (find_id m.order_id flat)) [
    | inl missing ↦
        rw (r.index m.order_id, find_order-orders m.order_id flat, missing)
          (refused order_not_found)
    | inr (n, here) ↦
        let (b', run, r') = remove_resting_order-Represents r m.order_id n here in
        rw
          (
            r.index m.order_id,
            find_order-orders m.order_id flat,
            here,
            run,
            left_total m.order_id n,
          )
          (b', refl, remove_id m.order_id flat, r', sym (remove_order-orders m.order_id flat))
  ]
