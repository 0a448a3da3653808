-- ===== src/Orderbook/Book/Departures.antt =====
-- A resting order of a well-formed book: where the book finds it, and the book after it leaves or is
-- filled.
use mathlib.Core.Option
use low_latency_market_data.Common.{
  ℕ, ◌≤◌, ◌≡◌, ap, ◌∙◌, List, some, true, false, ◌==◌, ==_iff, Bool-cases, inl, inr,
}
use low_latency_market_data.Common.Words.{IsU32}
use low_latency_market_data.Common.Maps
use low_latency_market_data.Common.Maps.{nat_eq}
use low_latency_market_data.Orderbook.Types.{Node, Level, LevelDelta, ascending, descending}
use low_latency_market_data.Orderbook.Book.{
  Book, remove_resting_order, level_for, find_node, write_level, fill,
}
use low_latency_market_data.Orderbook.Book.Arrivals.{
  find_id, remove_id, fill_id, Rising-remove, Rising-fill,
}
use low_latency_market_data.Orderbook.Book.Arrivals.Ids.{
  find_id-remove, find_id-fill, IsDistinct-remove, IsDistinct-fill, IsSmall-remove, IsSmall-fill,
  IsSmall-find,
}
use low_latency_market_data.Orderbook.Book.Sides.{
  location, total_at, Holds-remove_off, Holds-fill_off,
}
use low_latency_market_data.Orderbook.Book.Located.{level_found, remove_from-Holds, fill-Holds}
use low_latency_market_data.Orderbook.Book.Represents.{Represents, is_bid, on_bids, on_asks}

module _ {b : Book} {flat : List Node} (r : Represents b flat) (id : ℕ) (n : Node)
    (found : find_id id flat ≡ some n) where
  small : IsU32 n.order.quantity
  small = IsSmall-find id flat n r.small found

  -- The index leads to the order's side, price and node.
  pub located : Maps.lookup id b.order_index ≡ some (location n)
  located = r.index id ∙ ap (Option.map location) found

  index_remove :
      (j : ℕ)
      → Maps.lookup j (Maps.erase id b.order_index)
        ≡ Option.map location (find_id j (remove_id id flat))
  index_remove j = Maps.lookup-erase j id b.order_index ∙ elim (Bool-cases (id == j)) [
    | inl hit ↦ rw (hit, find_id-remove j id flat r.distinct, hit)
    | inr miss ↦ rw (miss, find_id-remove j id flat r.distinct, miss) (r.index j)
  ]

  abbrev pub removed : LevelDelta
  removed = record {
    side = n.order.side;
    price = n.order.price;
    total_quantity = total_at (is_bid n.order.side) n.order.price (remove_id id flat);
  }

  -- `remove_resting_order` meets no undefined behaviour, and takes exactly this order off the book.
  pub remove_resting_order-Represents :
      (b' : Book) × (remove_resting_order b id ≡ some (removed, b'))
      × Represents b' (remove_id id flat)
  unfolding remove_resting_order
  remove_resting_order-Represents = elim (Bool-cases (is_bid n.order.side)) [
    | inl buying ↦
        let on = on_bids n.order.side buying in
        let (m, run, h) =
          remove_from-Holds descending true b.next_node id n r.bids r.rising found on.0 small in
        (
          record b { bids = m; order_index = Maps.erase id b.order_index },
          rw (located, buying, run),
          record {
            bids = h;
            asks = Holds-remove_off ascending false id n found on.1 r.asks;
            index = index_remove;
            distinct = IsDistinct-remove id flat r.distinct;
            small = IsSmall-remove id flat r.small;
            rising = Rising-remove 0 id flat b.next_node r.rising;
          },
        )
    | inr selling ↦
        let on = on_asks n.order.side selling in
        let (m, run, h) =
          remove_from-Holds ascending false b.next_node id n r.asks r.rising found on.1 small in
        (
          record b { asks = m; order_index = Maps.erase id b.order_index },
          rw (located, selling, run),
          record {
            bids = Holds-remove_off descending true id n found on.0 r.bids;
            asks = h;
            index = index_remove;
            distinct = IsDistinct-remove id flat r.distinct;
            small = IsSmall-remove id flat r.small;
            rising = Rising-remove 0 id flat b.next_node r.rising;
          },
        )
  ]

  index_fill :
      (x j : ℕ) → Maps.lookup j b.order_index ≡ Option.map location (find_id j (fill_id id x flat))
  index_fill x j = r.index j ∙ elim (Bool-cases (id == j)) [
    | inl hit ↦ rw (find_id-fill j id x flat, hit, ← (==_iff id j).0 hit, found)
    | inr miss ↦ rw (find_id-fill j id x flat, miss)
  ]

  -- What `level_for` and the iterator find, and the book after the level is written back.
  pub record Filled (x : ℕ) : Type 0 where
    pub held : Level
    pub at : level_for b n.order.side n.order.price ≡ some held
    pub node : find_node n.addr held.orders ≡ some n
    pub total :
        (fill (location n) n x held).total_quantity
        ≡ total_at (is_bid n.order.side) n.order.price (fill_id id x flat)
    pub after :
        Represents (write_level b (location n) (fill (location n) n x held)) (fill_id id x flat)

  pub filled : (x : ℕ) → x ≤ n.order.quantity → Filled x
  unfolding level_for write_level
  filled x le = elim (Bool-cases (is_bid n.order.side)) [
    | inl buying ↦
        let on = on_bids n.order.side buying in
        let f = level_found descending true b.next_node id n r.bids r.rising found on.0 in
        let (t, h) =
          fill-Holds descending true b.next_node id n r.bids r.rising found on.0 x small le in
        record {
          held = f.held;
          at = rw buying f.at;
          node = f.node;
          total = rw buying t;
          after = rw buying (record {
            bids = h;
            asks = Holds-fill_off ascending false id x n found on.1 r.asks;
            index = index_fill x;
            distinct = IsDistinct-fill id x flat r.distinct;
            small = IsSmall-fill id x flat r.small;
            rising = Rising-fill 0 id x flat b.next_node r.rising;
          });
        }
    | inr selling ↦
        let on = on_asks n.order.side selling in
        let f = level_found ascending false b.next_node id n r.asks r.rising found on.1 in
        let (t, h) =
          fill-Holds ascending false b.next_node id n r.asks r.rising found on.1 x small le in
        record {
          held = f.held;
          at = rw selling f.at;
          node = f.node;
          total = rw selling t;
          after = rw selling (record {
            bids = Holds-fill_off descending true id x n found on.0 r.bids;
            asks = h;
            index = index_fill x;
            distinct = IsDistinct-fill id x flat r.distinct;
            small = IsSmall-fill id x flat r.small;
            rising = Rising-fill 0 id x flat b.next_node r.rising;
          });
        }
  ]
