-- ===== src/Orderbook/Book/Arrivals.antt =====
-- The resting orders of a book as one list of nodes, in the order of their arrival: what a level of
-- the book is made of, and how a list changes when an order leaves or is filled.
pub mod Ids
pub mod OnLevel
use low_latency_market_data.Common.{
  ℕ, zero, suc, ◌+◌, ◌-◌, ◌%◌, ◌^◌, ◌≤◌, ◌<◌, ◌≡◌, refl, sym, ap, ◌∙◌, List, [], ◌∷◌, ◌++◌, Option,
  none, some, Bool, true, false, not, ◌&&◌, ◌==◌, ==_iff, eqb_ℤ, if◌then◌else◌, filter,
  filter-append, ℤ, arith, Bool-cases, inl, inr, All,
}
use low_latency_market_data.Common.Words.{IsU32}
use low_latency_market_data.Protocol.Messages.{Side, buy}
use low_latency_market_data.Orderbook.Types.{RestingOrder, Node, Level, OrderLocation}
use low_latency_market_data.Orderbook.Book.{find_node, erase_node, set_quantity}

abbrev pub find_id : ℕ → List Node → Option Node
find_id id [] = none
find_id id (n ∷ ns) = if n.order.order_id == id then some n else find_id id ns

abbrev pub remove_id : ℕ → List Node → List Node
remove_id id [] = []
remove_id id (n ∷ ns) = if n.order.order_id == id then ns else n ∷ remove_id id ns

abbrev pub with_quantity : Node → ℕ → Node
with_quantity n q = record n { order = record (n.order) { quantity = q } }

abbrev pub fill_id : ℕ → ℕ → List Node → List Node
fill_id id x [] = []
fill_id id x (n ∷ ns) =
    if n.order.order_id == id
    then with_quantity n (n.order.quantity - x) ∷ ns
    else n ∷ fill_id id x ns

-- Bids are the orders to buy; an order of any other side rests with the asks.
abbrev pub on_side : Bool → Side → Bool
on_side true side = side == buy
on_side false side = not (side == buy)

abbrev pub on_level : Bool → ℤ → Node → Bool
on_level bid p n = on_side bid n.order.side && eqb_ℤ n.order.price p

abbrev pub level_nodes : Bool → ℤ → List Node → List Node
level_nodes bid p flat = filter (on_level bid p) flat

abbrev pub sum_quantity : List Node → ℕ
sum_quantity [] = 0
sum_quantity (n ∷ ns) = n.order.quantity + sum_quantity ns

-- No two orders share an id.
abbrev pub IsDistinct : List Node → Type 0
IsDistinct [] = Unit {0}
IsDistinct (n ∷ ns) = (find_id n.order.order_id ns ≡ none) × IsDistinct ns

-- The addresses rise from `lo`, and stay below `hi`.
abbrev pub Rising : ℕ → List Node → ℕ → Type 0
Rising lo [] hi = lo ≤ hi
Rising lo (n ∷ ns) hi = (lo ≤ n.addr) × Rising (suc n.addr) ns hi

Rising-lower :
    (lo lo' : ℕ) (ns : List Node) (hi : ℕ) → lo ≤ lo' → Rising lo' ns hi → Rising lo ns hi
Rising-lower lo lo' [] hi h r = omega arith
Rising-lower lo lo' (n ∷ ns) hi h r = (omega arith, r.1)

pub Rising-append :
    (lo : ℕ) (ns : List Node) (hi : ℕ) (n : Node)
    → Rising lo ns hi
    → n.addr ≡ hi
    → Rising lo (ns ++ n ∷ []) (hi + 1)
Rising-append lo [] hi n r e = (omega arith, omega arith)
Rising-append lo (m ∷ ns) hi n r e = (r.0, Rising-append (suc m.addr) ns hi n r.1 e)

Rising-le : (lo : ℕ) (ns : List Node) (hi : ℕ) → Rising lo ns hi → lo ≤ hi
Rising-le lo [] hi r = r
Rising-le lo (n ∷ ns) hi r = omega (arith, Rising-le (suc n.addr) ns hi r.1)

pub Rising-remove :
    (lo id : ℕ) (ns : List Node) (hi : ℕ) → Rising lo ns hi → Rising lo (remove_id id ns) hi
Rising-remove lo id [] hi r = r
Rising-remove lo id (n ∷ ns) hi r = elim (Bool-cases (n.order.order_id == id)) [
  | inl hit ↦ rw hit (Rising-lower lo (suc n.addr) ns hi (omega arith) r.1)
  | inr miss ↦ rw miss (r.0, Rising-remove (suc n.addr) id ns hi r.1)
]

pub Rising-fill :
    (lo id x : ℕ) (ns : List Node) (hi : ℕ) → Rising lo ns hi → Rising lo (fill_id id x ns) hi
Rising-fill lo id x [] hi r = r
Rising-fill lo id x (n ∷ ns) hi r = elim (Bool-cases (n.order.order_id == id)) [
  | inl hit ↦ rw hit r
  | inr miss ↦ rw miss (r.0, Rising-fill (suc n.addr) id x ns hi r.1)
]

-- A node of a list lies above the list's lower bound.
Rising-find :
    (lo id : ℕ) (ns : List Node) (hi : ℕ) (n : Node)
    → Rising lo ns hi
    → find_id id ns ≡ some n
    → lo ≤ n.addr
Rising-find lo id [] hi n r e = absurd (cc)
Rising-find lo id (m ∷ ns) hi n r e = elim (Bool-cases (m.order.order_id == id)) [
  | inl hit ↦ ground arith
  | inr miss ↦ omega (arith, Rising-find (suc m.addr) id ns hi n r.1 (ground arith))
]
