-- ===== src/Orderbook/Book/Overflow.antt =====
-- The total of a level, which is 32 bits wide, when it wraps.
use low_latency_market_data.Common.{
  ◌+◌, ◌^◌, ◌≡◌, refl, ap, ◌∙◌, List, [], ◌∷◌, ◌++◌, none, some, true, ◌&&◌, ok, ◌==◌, eqb_ℤ,
  eqb_ℤ_iff, filter-append, arith, Bool-cases, inl, inr,
}
use low_latency_market_data.Common.Words.{IsU32}
use low_latency_market_data.Protocol.Messages.{AddOrder, Side, buy, add}
use low_latency_market_data.Orderbook.Types.{Node, RestingOrder, no_result, add_delta}
use low_latency_market_data.Orderbook.Spec.{
  Orders, find_order, rests_on, level_orders, sum_orders, level_total, enter, spec, spec_add,
}
use low_latency_market_data.Orderbook.Book.{Book, apply}
use low_latency_market_data.Orderbook.Book.Represents.{Represents}
use low_latency_market_data.Orderbook.Book.Forget.{orders}
use low_latency_market_data.Orderbook.Book.Contract.{apply_refines}

sum_orders-append : (os qs : Orders) → sum_orders (os ++ qs) ≡ sum_orders os + sum_orders qs
sum_orders-append [] qs = omega arith
sum_orders-append (o ∷ os) qs = omega (arith, sum_orders-append os qs)

rests_on_own : (side : Side) → rests_on (side == buy) side ≡ true
rests_on_own side = elim (Bool-cases (side == buy)) [ inl e ↦ rw (e, e) | inr e ↦ rw (e, e) ]

sum-enter :
    (os : Orders) (o : RestingOrder)
    → sum_orders (level_orders (o.side == buy) o.price (enter os o))
      ≡ sum_orders (level_orders (o.side == buy) o.price os) + o.quantity
sum-enter os o =
    rw
      (
        filter-append (λ q. rests_on (o.side == buy) q.side && eqb_ℤ q.price o.price) os (o ∷ []),
        rests_on_own o.side,
        (eqb_ℤ_iff o.price o.price).1 refl,
        sum_orders-append (level_orders (o.side == buy) o.price os) (o ∷ []),
      )
      (omega arith)

abbrev pub arriving : AddOrder → RestingOrder
arriving m = record { order_id = m.order_id; side = m.side; price = m.price; quantity = m.quantity }

-- On a book that represents a list of orders, an accepted order that brings the sum of its level to
-- 2^32 is reported with the total 0, which means that the level is gone, though it rests there.
pub add_wraps :
    (b : Book) (flat : List Node) (m : AddOrder)
    → Represents b flat
    → IsU32 m.quantity
    → find_order m.order_id (orders flat) ≡ none
    → sum_orders (level_orders (m.side == buy) m.price (orders flat)) + m.quantity ≡ 2 ^ 32
    → (b' : Book) × (apply b (add m) ≡ some (ok (add_delta no_result m.side m.price 0), b'))
      × (flat' : List Node) × Represents b' flat'
      × (orders flat' ≡ orders flat ++ arriving m ∷ [])
unfolding spec spec_add
add_wraps b flat m r small fresh full =
    let (b', run, flat', r', os) = apply_refines b flat (add m) r small in
    let wrapped : level_total m.side m.price (enter (orders flat) (arriving m)) ≡ 0 =
      omega (arith, sum-enter (orders flat) (arriving m)) in
    let answer : spec (orders flat) (add m)
        ≡ (ok (add_delta no_result m.side m.price 0), enter (orders flat) (arriving m)) =
      rw (fresh, wrapped) in
    (b', run ∙ ap (λ s. some (s.0, b')) answer, flat', r', os ∙ ap (λ s. s.1) answer)
