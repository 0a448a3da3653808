-- ===== src/Orderbook/Book/Fills.antt =====
-- An execution: the book against the abstract book.
use low_latency_market_data.Common.{
  ℕ, ◌≡◌, refl, sym, ap, List, [], ◌∷◌, some, true, false, ◌==◌, ==_refl, ltb, ltb→le, arith,
  Bool-cases, Option-cases, inl, inr, ok,
}
use low_latency_market_data.Common.Words.{IsU32, sub32}
use low_latency_market_data.Common.Maps.{nat_eq}
use low_latency_market_data.Protocol.Messages.{ExecuteOrder}
use low_latency_market_data.Orderbook.Types.{
  Node, no_result, add_delta, order_not_found, executed_quantity_exceeds_remaining,
}
use low_latency_market_data.Orderbook.Spec.{spec_execute}
use low_latency_market_data.Orderbook.Book.{
  Book, apply_execute, apply_found, apply_located, write_level, fill,
}
use low_latency_market_data.Orderbook.Book.Arrivals.{find_id, remove_id, fill_id}
use low_latency_market_data.Orderbook.Book.Arrivals.Ids.{find_id-fill, IsSmall-find}
use low_latency_market_data.Orderbook.Book.Sides.{location}
use low_latency_market_data.Orderbook.Book.Represents.{Represents}
use low_latency_market_data.Orderbook.Book.Departures.{remove_resting_order-Represents, filled}
use low_latency_market_data.Orderbook.Book.Forget.{
  orders, find_order-orders, remove_order-orders, fill_order-orders, level_total-orders,
}
use low_latency_market_data.Orderbook.Book.Refine.{Simulates, refused, left_total}
use low_latency_market_data.Orderbook.Book.Arrivals.Ids.{fill_node}

pub remove_id-fill : (id x : ℕ) (ns : List Node) → remove_id id (fill_id id x ns) ≡ remove_id id ns
remove_id-fill id x [] = refl
remove_id-fill id x (n ∷ ns) = elim (Bool-cases (n.order.order_id == id)) [
  | inl hit ↦ rw (hit, hit)
  | inr miss ↦ rw (miss, miss) (ap (λ ms. n ∷ ms) (remove_id-fill id x ns))
]

module _ {b : Book} {flat : List Node} (r : Represents b flat) (m : ExecuteOrder) (n : Node)
    (here : find_id m.order_id flat ≡ some n) where
  small : IsU32 n.order.quantity
  small = IsSmall-find m.order_id flat n r.small here

  too_much :
      ltb n.order.quantity m.executed_quantity ≡ true
      → Simulates (apply_found b m (location n)) (spec_execute (orders flat) m)
  unfolding apply_found spec_execute
  too_much h =
      let f = filled r m.order_id n here 0 (omega arith) in
      rw (find_order-orders m.order_id flat, here, f.at, f.node, h)
        (refused r executed_quantity_exceeds_remaining)

  in_part :
      ltb n.order.quantity m.executed_quantity ≡ false
      → (n.order.quantity == m.executed_quantity) ≡ false
      → Simulates (apply_found b m (location n)) (spec_execute (orders flat) m)
  unfolding apply_found spec_execute
  in_part h more =
      let f = filled r m.order_id n here m.executed_quantity (ltb→le _ _ h) in
      let left : (sub32 n.order.quantity m.executed_quantity == 0) ≡ false =
        ground (arith, small) in
      rw (find_order-orders m.order_id flat, here, f.at, f.node, h, more, left)
        (rw
          (
            fill_order-orders m.order_id m.executed_quantity flat,
            level_total-orders n.order.side n.order.price
                (fill_id m.order_id m.executed_quantity flat),
          )
          (
            write_level b (location n) (fill (location n) n m.executed_quantity f.held),
            ap
                (λ t. some (
                  ok (add_delta no_result n.order.side n.order.price t),
                  write_level b (location n) (fill (location n) n m.executed_quantity f.held),
                ))
                f.total,
            fill_id m.order_id m.executed_quantity flat,
            f.after,
            refl,
          ))

  in_full :
      ltb n.order.quantity m.executed_quantity ≡ false
      → (n.order.quantity == m.executed_quantity) ≡ true
      → Simulates (apply_found b m (location n)) (spec_execute (orders flat) m)
  unfolding apply_found spec_execute
  in_full h all =
      let f = filled r m.order_id n here m.executed_quantity (ltb→le _ _ h) in
      let left : (sub32 n.order.quantity m.executed_quantity == 0) ≡ true = ground (arith, small) in
      let (b', run, r') =
        remove_resting_order-Represents f.after m.order_id (fill_node m.executed_quantity n) (
          rw (
            find_id-fill m.order_id m.order_id m.executed_quantity flat,
            ==_refl m.order_id,
            here,
          )) in
      rw (find_order-orders m.order_id flat, here, f.at, f.node, h, all, left, run)
        (rw (remove_id-fill m.order_id m.executed_quantity flat, left_total r m.order_id n)
          (
            b',
            refl,
            remove_id m.order_id flat,
            rw (← remove_id-fill m.order_id m.executed_quantity flat) r',
            sym (remove_order-orders m.order_id flat),
          ))

  found-Simulates : Simulates (apply_found b m (location n)) (spec_execute (orders flat) m)
  found-Simulates = elim (Bool-cases (ltb n.order.quantity m.executed_quantity)) [
    | inl more ↦ too_much more
    | inr enough ↦ elim (Bool-cases (n.order.quantity == m.executed_quantity)) [
      | inl all ↦ in_full enough all
      | inr part ↦ in_part enough part
    ]
  ]

module _ {b : Book} {flat : List Node} (r : Represents b flat) where
  pub execute-Simulates :
      (m : ExecuteOrder) → Simulates (apply_execute b m) (spec_execute (orders flat) m)
  unfolding apply_execute spec_execute apply_located
  execute-Simulates m = elim (Option-cases (find_id m.order_id flat)) [
    | inl missing ↦
        rw (r.index m.order_id, find_order-orders m.order_id flat, missing)
          (refused r order_not_found)
    | inr (n, here) ↦ rw (r.index m.order_id, here) (found-Simulates r m n here)
  ]
