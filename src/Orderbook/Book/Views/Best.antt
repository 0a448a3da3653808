-- ===== src/Orderbook/Book/Views/Best.antt =====
-- `best_bid_ask` in terms of the orders that rest in the book.
use mathlib.Core.Path.{subst}
use low_latency_market_data.Common.{
  ◌<◌, ◌≡◌, suc, refl, sym, ap, ◌∙◌, List, [], ◌∷◌, Option, none, some, Bool, true, false, ltb_ℤ,
  length, ℤ, arith, ◌%◌, ◌^◌,
}
use low_latency_market_data.Common.Ordered
use low_latency_market_data.Common.Ordered.{Compare, same_refl, less_ne, find-Above}
use low_latency_market_data.Orderbook.Types.{
  PriceLevelView, Node, Level, Levels, ascending, descending,
}
use low_latency_market_data.Orderbook.Spec.{Orders, level_orders, sum_orders}
use low_latency_market_data.Orderbook.Book.{Book}
use low_latency_market_data.Orderbook.Book.Arrivals.{level_nodes}
use low_latency_market_data.Orderbook.Book.Sides.{Holds, level_of}
use low_latency_market_data.Orderbook.Book.Represents.{Represents}
use low_latency_market_data.Orderbook.Book.Forget.{orders, level_orders-orders, sum_orders-orders}
use low_latency_market_data.Orderbook.Book.Views.{first_level, level_view, best_bid_ask}

abbrev pub better : Bool → ℤ → ℤ → Bool
better true p q = ltb_ℤ q p
better false p q = ltb_ℤ p q

-- The view tells how many orders rest at its price, which is some, and the 32-bit sum of their
-- quantities.
pub record IsView (bid : Bool) (os : Orders) (v : PriceLevelView) : Type 0 where
  pub total : v.total_quantity ≡ sum_orders (level_orders bid v.price os) % 2 ^ 32
  pub count : v.order_count ≡ length (level_orders bid v.price os)
  pub some_rest : 0 < v.order_count

-- The view is of the best price of its side, and there is none only if no order rests there.
abbrev pub IsBest : Bool → Orders → Option PriceLevelView → Type 0
IsBest bid os none = (p : ℤ) → level_orders bid p os ≡ []
IsBest bid os (some v) =
    IsView bid os v × ((p : ℤ) → better bid p v.price ≡ true → level_orders bid p os ≡ [])

length-orders : (ns : List Node) → length (orders ns) ≡ length ns
length-orders [] = refl
length-orders (n ∷ ns) = ap suc (length-orders ns)

-- What an entry of the map says of the orders of its level.
Shows : List Node → Option Level → Type 0
Shows ns none = ns ≡ []
Shows ns (some l) =
    (l.total_quantity ≡ sum_orders (orders ns) % 2 ^ 32)
    × (length l.orders ≡ length (orders ns))
    × (0 < length l.orders)

level_of-Shows : (ns : List Node) → Shows ns (level_of ns)
unfolding Shows
level_of-Shows [] = refl
level_of-Shows (n ∷ ns) = (
  ap (λ s. s % 2 ^ 32) (sym (sum_orders-orders (n ∷ ns))),
  sym (length-orders (n ∷ ns)),
  omega arith,
)

module _ (o : Compare ℤ) (bid : Bool) (flat : List Node) where
  entry :
      (m : Levels) (p : ℤ)
      → Holds o bid m flat
      → Shows (level_nodes bid p flat) (Ordered.find o p m)
  entry m p h = rw (h.level p) (level_of-Shows (level_nodes bid p flat))

  pub nobody :
      (m : Levels) (p : ℤ)
      → Holds o bid m flat
      → Ordered.find o p m ≡ none
      → level_orders bid p (orders flat) ≡ []
  unfolding Shows
  nobody m p h e = level_orders-orders bid p flat ∙ ap orders (empty (entry m p h))
    where
      empty : Shows (level_nodes bid p flat) (Ordered.find o p m) → level_nodes bid p flat ≡ []
      empty s = subst (λ x. Shows (level_nodes bid p flat) x) e s

  here : (p : ℤ) (l : Level) (m : Levels) → Ordered.find o p ((p, l) ∷ m) ≡ some l
  unfolding Ordered.find
  here p l m = rw (same_refl o p)

  -- A level that the map holds is shown as it is.
  pub level_view-IsView :
      (m : Levels) (p : ℤ) (l : Level)
      → Holds o bid m flat
      → Ordered.find o p m ≡ some l
      → IsView bid (orders flat) (level_view (p, l))
  unfolding level_view Shows
  level_view-IsView m p l h found =
      let (t, c, k) : Shows (level_nodes bid p flat) (some l) =
        subst (λ x. Shows (level_nodes bid p flat) x) found (entry m p h) in
      record {
        total = t ∙ ap (λ os. sum_orders os % 2 ^ 32) (sym (level_orders-orders bid p flat));
        count = c ∙ ap length (sym (level_orders-orders bid p flat));
        some_rest = k;
      }

  pub first_level-IsBest :
      (m : Levels)
      → ((p q : ℤ) → better bid p q ≡ o.less p q)
      → Holds o bid m flat
      → IsBest bid (orders flat) (first_level m)
  unfolding first_level level_view Ordered.find Shows
  first_level-IsBest [] agree h = λ p. nobody [] p h refl
  first_level-IsBest ((p, l) ∷ m) agree h = (
    level_view-IsView ((p, l) ∷ m) p l h (here p l m),
    λ q b. nobody ((p, l) ∷ m) q h (find-Above o q ((p, l) ∷ m) (sym (agree q p) ∙ b, h.sorted)),
  )

-- On a book that represents a list of orders, `best_bid_ask` shows for each side a price at which
-- orders rest, with their number and the 32-bit sum of their quantities, and no order of the side
-- rests at a better price; it shows nothing only for a side on which no order rests.
pub best_bid_ask_lem :
    (b : Book) (flat : List Node)
    → Represents b flat
    → IsBest true (orders flat) (best_bid_ask b).bid
      × IsBest false (orders flat) (best_bid_ask b).ask
unfolding best_bid_ask
best_bid_ask_lem b flat r = (
  first_level-IsBest descending true flat b.bids (λ p q. refl) r.bids,
  first_level-IsBest ascending false flat b.asks (λ p q. refl) r.asks,
)
