-- ===== src/Orderbook/Spec.antt =====
-- What an order book promises, as an abstract machine: the resting orders are one list in the order
-- of their arrival, and the total of a level is the 32-bit sum of the quantities that rest there.
use low_latency_market_data.Common.{
  ℕ, ◌+◌, ◌-◌, ◌%◌, ◌^◌, List, [], ◌∷◌, ◌++◌, Option, none, some, Bool, Expected, ok, err, ltb,
  ◌==◌, ◌&&◌, not, true, false, eqb_ℤ, if◌then◌else◌, is_some, filter, ℤ,
}
use low_latency_market_data.Protocol.Messages.{
  AddOrder, CancelOrder, ExecuteOrder, ReplaceOrder, DecodedMessage, add, cancel, execute, replace,
  Side, buy,
}
use low_latency_market_data.Orderbook.Types.{
  ApplyError, order_not_found, executed_quantity_exceeds_remaining, duplicate_order_id,
  RestingOrder, ApplyResult, no_result, add_delta,
}

abbrev pub Orders : Type 0
Orders = List RestingOrder

abbrev pub find_order : ℕ → Orders → Option RestingOrder
find_order id [] = none
find_order id (o ∷ os) = if o.order_id == id then some o else find_order id os

abbrev pub remove_order : ℕ → Orders → Orders
remove_order id [] = []
remove_order id (o ∷ os) = if o.order_id == id then os else o ∷ remove_order id os

abbrev pub fill_order : ℕ → ℕ → Orders → Orders
fill_order id x [] = []
fill_order id x (o ∷ os) =
    if o.order_id == id then record o { quantity = o.quantity - x } ∷ os else o ∷ fill_order id x os

-- Orders to buy rest on one side, all others on the other.
abbrev pub rests_on : Bool → Side → Bool
rests_on true side = side == buy
rests_on false side = not (side == buy)

abbrev pub level_orders : Bool → ℤ → Orders → Orders
level_orders bid price os = filter (λ o. rests_on bid o.side && eqb_ℤ o.price price) os

abbrev pub sum_orders : Orders → ℕ
sum_orders [] = 0
sum_orders (o ∷ os) = o.quantity + sum_orders os

abbrev pub level_total : Side → ℤ → Orders → ℕ
level_total side price os = sum_orders (level_orders (side == buy) price os) % 2 ^ 32

abbrev pub Reply : Type 0
Reply = Expected ApplyError ApplyResult × Orders

-- The level that an order rested on, after a change.
abbrev pub touched : ApplyResult → RestingOrder → Orders → ApplyResult
touched r o os = add_delta r o.side o.price (level_total o.side o.price os)

abbrev pub enter : Orders → RestingOrder → Orders
enter os o = os ++ o ∷ []

unfoldable pub spec_add : Orders → AddOrder → Reply
spec_add os m =
    let o : RestingOrder = record {
      order_id = m.order_id;
      side = m.side;
      price = m.price;
      quantity = m.quantity;
    } in
    if is_some (find_order m.order_id os)
    then (err duplicate_order_id, os)
    else (ok (touched no_result o (enter os o)), enter os o)

-- What follows when the order is found, or not.
abbrev pub cancelled : Orders → CancelOrder → Option RestingOrder → Reply
cancelled os m none = (err order_not_found, os)
cancelled os m (some o) =
    let os' = remove_order m.order_id os in (ok (touched no_result o os'), os')

unfoldable pub spec_cancel : Orders → CancelOrder → Reply
spec_cancel os m = cancelled os m (find_order m.order_id os)

-- A fill of everything that is left takes the order off the book.
abbrev pub after_fill : Orders → ExecuteOrder → RestingOrder → Orders
after_fill os m o =
    if o.quantity == m.executed_quantity
    then remove_order m.order_id os
    else fill_order m.order_id m.executed_quantity os

abbrev pub executed : Orders → ExecuteOrder → Option RestingOrder → Reply
executed os m none = (err order_not_found, os)
executed os m (some o) =
    let os' = after_fill os m o in
    if ltb o.quantity m.executed_quantity
    then (err executed_quantity_exceeds_remaining, os)
    else (ok (touched no_result o os'), os')

unfoldable pub spec_execute : Orders → ExecuteOrder → Reply
spec_execute os m = executed os m (find_order m.order_id os)

-- The new order keeps the old one's side and goes to the end.
abbrev pub successor : ReplaceOrder → RestingOrder → RestingOrder
successor m o = record {
  order_id = m.new_order_id;
  side = o.side;
  price = m.price;
  quantity = m.quantity;
}

abbrev pub replaced : Orders → ReplaceOrder → Option RestingOrder → Reply
replaced os m none = (err order_not_found, os)
replaced os m (some o) =
    let os' = remove_order m.old_order_id os in
    let o' = successor m o in
    if is_some (find_order m.new_order_id os)
    then (err duplicate_order_id, os)
    else (ok (touched (touched no_result o os') o' (enter os' o')), enter os' o')

unfoldable pub spec_replace : Orders → ReplaceOrder → Reply
spec_replace os m = replaced os m (find_order m.old_order_id os)

unfoldable pub spec : Orders → DecodedMessage → Reply
spec os (add m) = spec_add os m
spec os (cancel m) = spec_cancel os m
spec os (execute m) = spec_execute os m
spec os (replace m) = spec_replace os m
