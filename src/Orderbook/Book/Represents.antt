-- ===== src/Orderbook/Book/Represents.antt =====
-- The invariant of a book: what the two maps and the index hold, by the orders that rest. A new order
-- under the invariant.
use mathlib.Core.Option
use low_latency_market_data.Common.{
  ℕ, ◌≡◌, refl, ◌∙◌, List, [], ◌∷◌, ◌++◌, none, Bool, true, false, ◌==◌, arith, Bool-cases, inl,
  inr,
}
use low_latency_market_data.Common.Words.{IsU32}
use low_latency_market_data.Common.Ordered
use low_latency_market_data.Common.Maps
use low_latency_market_data.Common.Maps.{nat_eq}
use low_latency_market_data.Protocol.Messages.{Side, buy}
use low_latency_market_data.Orderbook.Types.{
  Node, RestingOrder, OrderLocation, ascending, descending,
}
use low_latency_market_data.Orderbook.Book.{Book, empty_book, insert_resting_order}
use low_latency_market_data.Orderbook.Book.Arrivals.{
  find_id, on_side, IsDistinct, Rising, Rising-append,
}
use low_latency_market_data.Orderbook.Book.Arrivals.Ids.{
  find_id-append, IsDistinct-append, IsSmall, IsSmall-append,
}
use low_latency_market_data.Orderbook.Book.Sides.{
  Holds, location, total_at, Holds-append_off, insert_into-Holds, insert_into_total,
}

-- `flat` are the resting orders in the order of their arrival.
pub record Represents (b : Book) (flat : List Node) : Type 0 where
  pub bids : Holds descending true b.bids flat
  pub asks : Holds ascending false b.asks flat
  pub index : (id : ℕ) → Maps.lookup id b.order_index ≡ Option.map location (find_id id flat)
  pub distinct : IsDistinct flat
  pub small : IsSmall flat
  pub rising : Rising 0 flat b.next_node

pub empty-Represents : Represents empty_book []
unfolding empty_book Ordered.find Maps.lookup
empty-Represents = record {
  bids = record { sorted = tt; level = λ p. refl };
  asks = record { sorted = tt; level = λ p. refl };
  index = λ id. refl;
  distinct = tt;
  small = tt;
  rising = omega arith;
}

abbrev pub is_bid : Side → Bool
is_bid side = side == buy

pub on_bids :
    (side : Side) → is_bid side ≡ true → (on_side true side ≡ true) × (on_side false side ≡ false)
on_bids side h = (h, rw h)

pub on_asks :
    (side : Side) → is_bid side ≡ false → (on_side true side ≡ false) × (on_side false side ≡ true)
on_asks side h = (h, rw h)

module _ {b : Book} {flat : List Node} (r : Represents b flat) where
  -- The node that `insert_resting_order` makes.
  abbrev pub new_node : RestingOrder → Node
  new_node order = record { addr = b.next_node; order = order }

  module _ (order : RestingOrder) where
    abbrev flat' : List Node
    flat' = flat ++ new_node order ∷ []

    abbrev index' : List (ℕ × OrderLocation)
    index' = Maps.assign order.order_id (location (new_node order)) b.order_index

    index_insert :
        find_id order.order_id flat ≡ none
        → (j : ℕ) → Maps.lookup j index' ≡ Option.map location (find_id j flat')
    index_insert fresh j =
        Maps.lookup-assign j order.order_id (location (new_node order)) b.order_index
        ∙ elim (Bool-cases (order.order_id == j)) [
          | inl hit ↦ rw (hit, find_id-append j flat (new_node order) fresh, hit)
          | inr miss ↦ rw (miss, find_id-append j flat (new_node order) fresh, miss) (r.index j)
        ]

    pub insert_resting_order-Represents :
        IsU32 order.quantity
        → find_id order.order_id flat ≡ none
        → ((insert_resting_order b order).0 ≡ total_at (is_bid order.side) order.price flat')
          × Represents (insert_resting_order b order).1 flat'
    unfolding insert_resting_order
    insert_resting_order-Represents small fresh = elim (Bool-cases (is_bid order.side)) [
      | inl buying ↦ rw buying (
        insert_into_total descending true n (on_bids order.side buying).0 r.bids,
        record {
          bids = insert_into-Holds descending true n (on_bids order.side buying).0 r.bids;
          asks = Holds-append_off ascending false n (on_bids order.side buying).1 r.asks;
          index = index_insert fresh;
          distinct = IsDistinct-append flat n fresh r.distinct;
          small = IsSmall-append flat n small r.small;
          rising = Rising-append 0 flat b.next_node n r.rising refl;
        },
      )
      | inr selling ↦ rw selling (
        insert_into_total ascending false n (on_asks order.side selling).1 r.asks,
        record {
          bids = Holds-append_off descending true n (on_asks order.side selling).0 r.bids;
          asks = insert_into-Holds ascending false n (on_asks order.side selling).1 r.asks;
          index = index_insert fresh;
          distinct = IsDistinct-append flat n fresh r.distinct;
          small = IsSmall-append flat n small r.small;
          rising = Rising-append 0 flat b.next_node n r.rising refl;
        },
      )
    ]
      where
        n : Node
        n = new_node order
