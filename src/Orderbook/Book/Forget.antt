-- ===== src/Orderbook/Book/Forget.antt =====
-- The resting orders of a book without the addresses of their nodes: the state of the abstract book.
use mathlib.Core.Option
use low_latency_market_data.Common.{
  ℕ, ◌+◌, ◌%◌, ◌^◌, ◌≡◌, refl, ap, ◌∙◌, List, [], ◌∷◌, ◌++◌, Bool, true, false, ◌==◌, ℤ, Bool-cases,
  inl, inr, map,
}
use low_latency_market_data.Protocol.Messages.{Side, buy}
use low_latency_market_data.Orderbook.Types.{Node, RestingOrder}
use low_latency_market_data.Orderbook.Spec.{
  Orders, find_order, remove_order, fill_order, rests_on, level_orders, sum_orders, level_total,
}
use low_latency_market_data.Orderbook.Book.Arrivals.{
  find_id, remove_id, fill_id, on_side, on_level, level_nodes, sum_quantity,
}
use low_latency_market_data.Orderbook.Book.Sides.{total_at}

abbrev pub orders : List Node → Orders
orders ns = map (λ n. n.order) ns

abbrev order_of : Node → RestingOrder
order_of n = n.order

pub find_order-orders :
    (id : ℕ) (ns : List Node) → find_order id (orders ns) ≡ Option.map order_of (find_id id ns)
find_order-orders id [] = refl
find_order-orders id (n ∷ ns) = elim (Bool-cases (n.order.order_id == id)) [
  | inl hit ↦ rw hit
  | inr miss ↦ rw miss (find_order-orders id ns)
]

pub remove_order-orders :
    (id : ℕ) (ns : List Node) → remove_order id (orders ns) ≡ orders (remove_id id ns)
remove_order-orders id [] = refl
remove_order-orders id (n ∷ ns) = elim (Bool-cases (n.order.order_id == id)) [
  | inl hit ↦ rw hit
  | inr miss ↦ rw miss (ap (λ os. n.order ∷ os) (remove_order-orders id ns))
]

pub fill_order-orders :
    (id x : ℕ) (ns : List Node) → fill_order id x (orders ns) ≡ orders (fill_id id x ns)
fill_order-orders id x [] = refl
fill_order-orders id x (n ∷ ns) = elim (Bool-cases (n.order.order_id == id)) [
  | inl hit ↦ rw hit
  | inr miss ↦ rw miss (ap (λ os. n.order ∷ os) (fill_order-orders id x ns))
]

rests_on-on_side : (bid : Bool) (side : Side) → rests_on bid side ≡ on_side bid side
rests_on-on_side true side = refl
rests_on-on_side false side = refl

pub level_orders-orders :
    (bid : Bool) (p : ℤ) (ns : List Node)
    → level_orders bid p (orders ns) ≡ orders (level_nodes bid p ns)
level_orders-orders bid p [] = refl
level_orders-orders bid p (n ∷ ns) = elim (Bool-cases (on_level bid p n)) [
  | inl kept ↦
      rw (rests_on-on_side bid n.order.side, kept)
        (ap (λ os. n.order ∷ os) (level_orders-orders bid p ns))
  | inr left ↦ rw (rests_on-on_side bid n.order.side, left) (level_orders-orders bid p ns)
]

pub sum_orders-orders : (ns : List Node) → sum_orders (orders ns) ≡ sum_quantity ns
sum_orders-orders [] = refl
sum_orders-orders (n ∷ ns) = ap (λ s. n.order.quantity + s) (sum_orders-orders ns)

pub level_total-orders :
    (side : Side) (p : ℤ) (ns : List Node)
    → level_total side p (orders ns) ≡ total_at (side == buy) p ns
level_total-orders side p ns =
    ap (λ os. sum_orders os % 2 ^ 32) (level_orders-orders (side == buy) p ns)
    ∙ ap (λ s. s % 2 ^ 32) (sum_orders-orders (level_nodes (side == buy) p ns))

pub orders-append : (ns : List Node) (n : Node) → orders (ns ++ n ∷ []) ≡ orders ns ++ n.order ∷ []
orders-append [] n = refl
orders-append (m ∷ ns) n = ap (λ os. m.order ∷ os) (orders-append ns n)
