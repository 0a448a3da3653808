-- ===== src/Orderbook/Book.antt =====
-- orderbook/order_book.cpp: the functions of one symbol's limit order book. `none` is undefined
-- behaviour: an end iterator or a null pointer that is dereferenced.
pub mod Arrivals
pub mod Sides
pub mod Located
pub mod Represents
pub mod Departures
pub mod Forget
pub mod Refine
pub mod Fills
pub mod Replaces
pub mod Contract
pub mod Views
pub mod Refusals
pub mod Overflow
use low_latency_market_data.Common.{
  ℕ, zero, suc, ◌+◌, ◌≡◌, List, [], ◌∷◌, ◌++◌, Option, none, some, Bool, true, false, Expected, ok,
  err, ◌>>=◌, ltb, leb, ◌==◌, if◌then◌else◌, is_some, length, ℤ,
}
use low_latency_market_data.Common.Words.{add32, sub32}
use low_latency_market_data.Common.Ordered
use low_latency_market_data.Common.Maps
use low_latency_market_data.Common.Maps.{nat_eq}
use low_latency_market_data.Protocol.Messages.{
  AddOrder, CancelOrder, ExecuteOrder, ReplaceOrder, DecodedMessage, add, cancel, execute, replace,
  Side, buy,
}
use low_latency_market_data.Orderbook.Types.{
  ApplyError, order_not_found, executed_quantity_exceeds_remaining, duplicate_order_id,
  RestingOrder, PriceLevelView, BestBidAsk, LevelDelta, ApplyResult, no_result, add_delta,
  DepthSnapshot, Node, Level, OrderLocation, Levels, ascending, descending,
}

-- `next_node` is the address of the next node that a list takes from its allocator.
pub record Book : Type 0 where
  pub bids : Levels
  pub asks : Levels
  pub order_index : List (ℕ × OrderLocation)
  pub next_node : ℕ

pub empty_book : Book
empty_book = record { bids = []; asks = []; order_index = []; next_node = 0 }

-- `has_order`
unfoldable pub has_order : Book → ℕ → Bool
has_order b id = Maps.contains id b.order_index

-- `level_for`; `none` is the null pointer.
pub level_for : Book → Side → ℤ → Option Level
level_for b side price =
    if side == buy
    then Ordered.find descending price b.bids
    else Ordered.find ascending price b.asks

-- `*it`, for an iterator into a level's list.
pub find_node : ℕ → List Node → Option Node
find_node a [] = none
find_node a (n ∷ ns) = if n.addr == a then some n else find_node a ns

-- `orders.erase(it)`
pub erase_node : ℕ → List Node → List Node
erase_node a [] = []
erase_node a (n ∷ ns) = if n.addr == a then ns else n ∷ erase_node a ns

-- `it->quantity = q`
pub set_quantity : ℕ → ℕ → List Node → List Node
set_quantity a q [] = []
set_quantity a q (n ∷ ns) =
    if n.addr == a
    then record n { order = record (n.order) { quantity = q } } ∷ ns
    else n ∷ set_quantity a q ns

-- The level's default value is empty.
abbrev pub level_or_new : Option Level → Level
level_or_new none = record { total_quantity = 0; orders = [] }
level_or_new (some l) = l

pub push_order : Node → Option Level → Level
push_order n l = record {
  total_quantity = add32 (level_or_new l).total_quantity n.order.quantity;
  orders = (level_or_new l).orders ++ n ∷ [];
}

-- The body of `insert_resting_order` for one of the two maps: the level's new total, and the map.
pub insert_into : Ordered.Compare ℤ → Node → Levels → ℕ × Levels
insert_into o n m =
    let m' = Ordered.upsert o n.order.price (push_order n) m in
    ((level_or_new (Ordered.find o n.order.price m')).total_quantity, m')

pub insert_resting_order : Book → RestingOrder → ℕ × Book
insert_resting_order b order =
    let n : Node = record { addr = b.next_node; order = order } in
    let loc : OrderLocation = record { side = order.side; price = order.price; it = b.next_node } in
    let index = Maps.assign order.order_id loc b.order_index in
    if order.side == buy
    then (let (total, m) = insert_into descending n b.bids in
        (total, record b { bids = m; order_index = index; next_node = b.next_node + 1 }))
    else (let (total, m) = insert_into ascending n b.asks in
        (total, record b { asks = m; order_index = index; next_node = b.next_node + 1 }))

-- The level without the node: gone if that was its last, with total 0.
pub without_node : Ordered.Compare ℤ → OrderLocation → Level → Levels → ℕ × Levels
without_node o loc level m = elim level.orders [
  | [] ↦ (0, Ordered.erase o loc.price m)
  | n ∷ ns ↦ (level.total_quantity, Ordered.upsert o loc.price (λ _. level) m)
]

-- The body of `remove_resting_order` for one of the two maps.
pub remove_from : Ordered.Compare ℤ → OrderLocation → Levels → Option (ℕ × Levels)
remove_from o loc m = do
  level ← Ordered.find o loc.price m
  node ← find_node loc.it level.orders
  let level' : Level = record {
    total_quantity = sub32 level.total_quantity node.order.quantity;
    orders = erase_node loc.it level.orders;
  }
  some (without_node o loc level' m)

pub remove_resting_order : Book → ℕ → Option (LevelDelta × Book)
remove_resting_order b id = do
  loc ← Maps.lookup id b.order_index
  let index = Maps.erase id b.order_index
  if loc.side == buy
      then (do
        (total, m) ← remove_from descending loc b.bids
        some (
          record { side = loc.side; price = loc.price; total_quantity = total },
          record b { bids = m; order_index = index },
        ))
      else (do
        (total, m) ← remove_from ascending loc b.asks
        some (
          record { side = loc.side; price = loc.price; total_quantity = total },
          record b { asks = m; order_index = index },
        ))

-- What `apply` returns, with the book after it.
abbrev pub Applied : Type 0
Applied = Expected ApplyError ApplyResult × Book

abbrev pub one_delta : LevelDelta → ApplyResult
one_delta d = add_delta no_result d.side d.price d.total_quantity

pub apply_add : Book → AddOrder → Applied
apply_add b msg =
    if Maps.contains msg.order_id b.order_index
    then (err duplicate_order_id, b)
    else (let (total, b') = insert_resting_order b (record {
      order_id = msg.order_id;
      side = msg.side;
      price = msg.price;
      quantity = msg.quantity;
    }) in
        (ok (add_delta no_result msg.side msg.price total), b'))

pub apply_cancel : Book → CancelOrder → Option Applied
apply_cancel b msg =
    if Maps.contains msg.order_id b.order_index
    then (do (touched, b') ← remove_resting_order b msg.order_id; some (ok (one_delta touched), b'))
    else some (err order_not_found, b)

-- `level->total_quantity -= q; order.quantity -= q;`
pub fill : OrderLocation → Node → ℕ → Level → Level
fill loc node q level = record {
  total_quantity = sub32 level.total_quantity q;
  orders = set_quantity loc.it (sub32 node.order.quantity q) level.orders;
}

-- A write through the pointer that `level_for` returned.
pub write_level : Book → OrderLocation → Level → Book
write_level b loc level =
    if loc.side == buy
    then record b { bids = Ordered.upsert descending loc.price (λ _. level) b.bids }
    else record b { asks = Ordered.upsert ascending loc.price (λ _. level) b.asks }

pub apply_found : Book → ExecuteOrder → OrderLocation → Option Applied
apply_found b msg loc = do
  level ← level_for b loc.side loc.price
  node ← find_node loc.it level.orders
  let level' = fill loc node msg.executed_quantity level
  let b' = write_level b loc level'
  let gone = (do
    (touched, b'') ← remove_resting_order b' msg.order_id
    some (ok (one_delta touched), b''))
  if ltb node.order.quantity msg.executed_quantity
      then some (err executed_quantity_exceeds_remaining, b)
      else if sub32 node.order.quantity msg.executed_quantity == 0
      then gone
      else some (ok (add_delta no_result loc.side loc.price level'.total_quantity), b')

-- What follows the lookup in the index.
pub apply_located : Book → ExecuteOrder → Option OrderLocation → Option Applied
apply_located b msg none = some (err order_not_found, b)
apply_located b msg (some loc) = apply_found b msg loc

pub apply_execute : Book → ExecuteOrder → Option Applied
apply_execute b msg = apply_located b msg (Maps.lookup msg.order_id b.order_index)

pub replace_located : Book → ReplaceOrder → Option OrderLocation → Option Applied
replace_located b msg none = some (err order_not_found, b)
replace_located b msg (some loc) =
    if Maps.contains msg.new_order_id b.order_index then some (err duplicate_order_id, b) else (do
      (vacated, b') ← remove_resting_order b msg.old_order_id
      let (total, b'') = insert_resting_order b' (record {
        order_id = msg.new_order_id;
        side = loc.side;
        price = msg.price;
        quantity = msg.quantity;
      })
      some (ok (add_delta (one_delta vacated) loc.side msg.price total), b''))

pub apply_replace : Book → ReplaceOrder → Option Applied
apply_replace b msg = replace_located b msg (Maps.lookup msg.old_order_id b.order_index)

-- The overload that the message's type selects.
pub apply : Book → DecodedMessage → Option Applied
apply b (add m) = some (apply_add b m)
apply b (cancel m) = apply_cancel b m
apply b (execute m) = apply_execute b m
apply b (replace m) = apply_replace b m
