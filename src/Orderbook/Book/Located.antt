-- ===== src/Orderbook/Book/Located.antt =====
-- An order that rests on one side of the book: its level in the map, and the map after the order
-- leaves or is filled.
use low_latency_market_data.Common.{
  ℕ, ◌-◌, ◌%◌, ◌^◌, ◌≤◌, ◌≡◌, refl, sym, ap, ◌∙◌, List, [], ◌∷◌, some, Bool, true, false, ==_refl,
  if◌then◌else◌, ℤ, arith, Bool-cases, inl, inr,
}
use low_latency_market_data.Common.Words.{IsU32, sub32}
use low_latency_market_data.Common.Ordered
use low_latency_market_data.Common.Ordered.{Compare, same, same_iff, same_ne}
use low_latency_market_data.Orderbook.Types.{Node, Level, Levels}
use low_latency_market_data.Orderbook.Book.{remove_from, without_node, find_node, erase_node, fill}
use low_latency_market_data.Orderbook.Book.Arrivals.{
  find_id, remove_id, fill_id, on_side, on_level, level_nodes, sum_quantity, Rising, Rising-fill,
}
use low_latency_market_data.Orderbook.Book.Arrivals.Ids.{fill_node, find_id-fill}
use low_latency_market_data.Orderbook.Book.Arrivals.OnLevel.{
  level_nodes-remove_off, level_nodes-fill_off, find_node-level_nodes, erase_node-level_nodes,
  set_quantity-level_nodes, sum_quantity-remove, sum_quantity-fill,
}
use low_latency_market_data.Orderbook.Book.Sides.{
  level_of, Holds, location, total_at, on_level_at, off_level_at,
}

-- The level of an order, as the map holds it.
pub record Found (o : Compare ℤ) (bid : Bool) (m : Levels) (flat : List Node) (n : Node)
    : Type 0 where
  pub held : Level
  pub at : Ordered.find o n.order.price m ≡ some held
  pub total : held.total_quantity ≡ total_at bid n.order.price flat
  pub orders : held.orders ≡ level_nodes bid n.order.price flat
  pub node : find_node n.addr held.orders ≡ some n

find_level :
    (o : Compare ℤ) (bid : Bool) (m : Levels) (flat : List Node) (n : Node) (ns : List Node)
    → Holds o bid m flat
    → level_nodes bid n.order.price flat ≡ ns
    → find_node n.addr ns ≡ some n
    → Found o bid m flat n
find_level o bid m flat n [] h e f = absurd (unfold find_node in cc)
find_level o bid m flat n (x ∷ ns) h e f = record {
  held = record { total_quantity = sum_quantity (x ∷ ns) % 2 ^ 32; orders = x ∷ ns };
  at = h.level n.order.price ∙ ap level_of e;
  total = ap (λ xs. sum_quantity xs % 2 ^ 32) (sym e);
  orders = sym e;
  node = f;
}

level_of-some :
    (ns : List Node) (t k : ℕ) {y : Node}
    → find_node k ns ≡ some y
    → t ≡ sum_quantity ns % 2 ^ 32
    → level_of ns ≡ some (record { total_quantity = t; orders = ns })
level_of-some [] t k f e = absurd (unfold find_node in cc)
level_of-some (n ∷ ns) t k f e =
    ap (λ q. some (record { total_quantity = q; orders = n ∷ ns })) (sym e)

-- A map that differs from another at one price only.
Holds-at :
    (o : Compare ℤ) (bid : Bool) {m : Levels} (m' : Levels) (flat flat' : List Node) (price : ℤ)
    → Holds o bid m flat
    → Ordered.IsSorted o m'
    → ((p : ℤ)
        → Ordered.find o p m'
          ≡ (if same o price p then level_of (level_nodes bid price flat') else Ordered.find o p m))
    → ((p : ℤ) → same o price p ≡ false → level_nodes bid p flat' ≡ level_nodes bid p flat)
    → Holds o bid m' flat'
Holds-at o bid {m} m' flat flat' price h s f off = record {
  sorted = s;
  level = λ p. f p ∙ elim (Bool-cases (same o price p)) [
    | inl here ↦ rw (here, (same_iff o price p).0 here)
    | inr away ↦ rw (away, off p away) (h.level p)
  ];
}

module _ (o : Compare ℤ) (bid : Bool) {m : Levels} {flat : List Node} (hi id : ℕ) (n : Node)
    (holds : Holds o bid m flat) (rising : Rising 0 flat hi) (found : find_id id flat ≡ some n)
    (on : on_side bid n.order.side ≡ true) where
  on_here : on_level bid n.order.price n ≡ true
  on_here = on_level_at o bid n.order.price n on refl

  pub level_found : Found o bid m flat n
  level_found =
      find_level o bid m flat n _ holds refl
        (find_node-level_nodes bid n.order.price id 0 flat hi n rising found on_here)

  -- What is left of the level when the order goes.
  rest_nodes :
      erase_node n.addr level_found.held.orders ≡ level_nodes bid n.order.price (remove_id id flat)
  rest_nodes =
      rw (level_found.orders)
        (erase_node-level_nodes bid n.order.price id 0 flat hi n rising found on_here)

  rest_total :
      IsU32 n.order.quantity
      → sub32 level_found.held.total_quantity n.order.quantity
        ≡ total_at bid n.order.price (remove_id id flat)
  rest_total small =
      omega
        (arith, level_found.total, sum_quantity-remove bid n.order.price id flat n found on_here)

  -- The map when the order's level is written back without it.
  abbrev left : ℕ → List Node → ℕ × Levels
  left t ns = without_node o (location n) (record { total_quantity = t; orders = ns }) m

  rest_off :
      (p : ℤ)
      → same o n.order.price p ≡ false
      → level_nodes bid p (remove_id id flat) ≡ level_nodes bid p flat
  rest_off p away = level_nodes-remove_off bid p id flat n found (off_level_at o bid p n away)

  left-Holds :
      (t : ℕ) (ns : List Node)
      → ns ≡ level_nodes bid n.order.price (remove_id id flat)
      → t ≡ total_at bid n.order.price (remove_id id flat)
      → ((left t ns).0 ≡ total_at bid n.order.price (remove_id id flat))
        × Holds o bid (left t ns).1 (remove_id id flat)
  unfolding without_node
  left-Holds t [] r e = (
    ap (λ xs. sum_quantity xs % 2 ^ 32) r,
    Holds-at o bid _ flat _ n.order.price holds
        (Ordered.erase-IsSorted o n.order.price m holds.sorted)
        (λ p. rw (← r) (Ordered.find-erase o n.order.price p m holds.sorted)) rest_off,
  )
  left-Holds t (x ∷ ns) r e = (
    e,
    Holds-at o bid _ flat _ n.order.price holds
        (Ordered.upsert-IsSorted o n.order.price (λ _. level) m holds.sorted)
        (λ p.
          rw (← r) (Ordered.find-upsert o n.order.price (λ _. level) p m holds.sorted ∙ rw total))
        rest_off,
  )
    where
      level : Level
      level = record { total_quantity = t; orders = x ∷ ns }

      total : t ≡ sum_quantity (x ∷ ns) % 2 ^ 32
      total = e ∙ ap (λ xs. sum_quantity xs % 2 ^ 32) (sym r)

  -- `remove_from` meets no undefined behaviour; it returns what is left of the level, 0 if it is
  -- gone, and the map without the order.
  pub remove_from-Holds :
      IsU32 n.order.quantity
      → (m' : Levels) × (remove_from o (location n) m
          ≡ some (total_at bid n.order.price (remove_id id flat), m'))
        × Holds o bid m' (remove_id id flat)
  remove_from-Holds small =
      let (total, h) = left-Holds t ns rest_nodes (rest_total small) in
      ((left t ns).1, run ∙ ap (λ k. some (k, (left t ns).1)) total, h)
    where
      t : ℕ
      t = sub32 level_found.held.total_quantity n.order.quantity

      ns : List Node
      ns = erase_node n.addr level_found.held.orders

      run : remove_from o (location n) m ≡ some (left t ns)
      run = unfold remove_from in rw (level_found.at, level_found.node)

  -- The level when the order is filled by `x`.
  pub fill-Holds :
      (x : ℕ)
      → IsU32 n.order.quantity
      → x ≤ n.order.quantity
      → let level = fill (location n) n x level_found.held in
        (level.total_quantity ≡ total_at bid n.order.price (fill_id id x flat))
        × Holds o bid (Ordered.upsert o n.order.price (λ _. level) m) (fill_id id x flat)
  unfolding fill
  fill-Holds x small le = (
    total,
    Holds-at o bid _ flat _ n.order.price holds
        (Ordered.upsert-IsSorted o n.order.price (λ _. level) m holds.sorted)
        (λ p.
          rw (level_of-some (level_nodes bid n.order.price (fill_id id x flat)) _ n.addr node total)
            (Ordered.find-upsert o n.order.price (λ _. level) p m holds.sorted
              ∙ ap
                  (λ ns.
                    if same o n.order.price p
                    then some (record { total_quantity = level.total_quantity; orders = ns })
                    else Ordered.find o p m)
                  orders))
        (λ p away. level_nodes-fill_off bid p id x flat n found (off_level_at o bid p n away)),
  )
    where
      level : Level
      level = fill (location n) n x level_found.held

      total :
          sub32 level_found.held.total_quantity x ≡ total_at bid n.order.price (fill_id id x flat)
      total = omega (
        arith,
        level_found.total,
        sum_quantity-fill bid n.order.price id x flat n found on_here le,
      )

      orders : level.orders ≡ level_nodes bid n.order.price (fill_id id x flat)
      orders =
          rw (level_found.orders, ← lower)
            (set_quantity-level_nodes bid n.order.price id x 0 flat hi n rising found on_here)
        where
          lower : n.order.quantity - x ≡ sub32 n.order.quantity x
          lower = omega arith

      node :
          find_node n.addr (level_nodes bid n.order.price (fill_id id x flat))
          ≡ some (fill_node x n)
      node =
          find_node-level_nodes bid n.order.price id 0 (fill_id id x flat) hi (fill_node x n)
            (Rising-fill 0 id x flat hi rising) filled on_here
        where
          filled : find_id id (fill_id id x flat) ≡ some (fill_node x n)
          filled = rw (find_id-fill id id x flat, ==_refl id, found)
