-- ===== src/Orderbook/Book/Sides.antt =====
-- One side of the book: a map that holds, for each price, the orders of that level in the order of
-- their arrival with the sum of their quantities, and no level without orders.
use low_latency_market_data.Common.{
  ℕ, ◌%◌, ◌^◌, ◌≡◌, refl, sym, ap, ◌∙◌, List, [], ◌∷◌, ◌++◌, append-nil, Option, none, some, Bool,
  true, false, eqb_ℤ_iff, if◌then◌else◌, filter-append, ℤ, arith, Bool-cases, inl, inr,
}
use low_latency_market_data.Common.Ordered
use low_latency_market_data.Common.Ordered.{Compare, same, same_iff, same_ne}
use low_latency_market_data.Orderbook.Types.{Node, Level, OrderLocation, Levels}
use low_latency_market_data.Orderbook.Book.{level_or_new, push_order, insert_into}
use low_latency_market_data.Orderbook.Book.Arrivals.{
  find_id, remove_id, fill_id, on_side, on_level, level_nodes, sum_quantity,
}
use low_latency_market_data.Orderbook.Book.Arrivals.OnLevel.{
  sum_quantity-append, level_nodes-remove_off, level_nodes-fill_off,
}

-- The level that holds the given orders: none if there are none.
abbrev pub level_of : List Node → Option Level
level_of [] = none
level_of (n ∷ ns) =
    some (record { total_quantity = sum_quantity (n ∷ ns) % 2 ^ 32; orders = n ∷ ns })

pub record Holds (o : Compare ℤ) (bid : Bool) (m : Levels) (flat : List Node) : Type 0 where
  pub sorted : Ordered.IsSorted o m
  pub level : (p : ℤ) → Ordered.find o p m ≡ level_of (level_nodes bid p flat)

abbrev pub location : Node → OrderLocation
location n = record { side = n.order.side; price = n.order.price; it = n.addr }

-- The sum of a level, as the 32-bit total that the book keeps.
abbrev pub total_at : Bool → ℤ → List Node → ℕ
total_at bid p flat = sum_quantity (level_nodes bid p flat) % 2 ^ 32

push_order-level_of :
    (n : Node) (ns : List Node) → some (push_order n (level_of ns)) ≡ level_of (ns ++ n ∷ [])
unfolding push_order
push_order-level_of n [] = ground arith
push_order-level_of n (m ∷ ns) =
    ap (λ t. some (record { total_quantity = t; orders = (m ∷ ns) ++ n ∷ [] }))
      (omega (arith, sum_quantity-append (m ∷ ns) n))

total_or_new :
    (ns : List Node) → (level_or_new (level_of ns)).total_quantity ≡ sum_quantity ns % 2 ^ 32
total_or_new [] = refl
total_or_new (m ∷ ns) = refl

module _ (o : Compare ℤ) (bid : Bool) where
  pub on_level_at :
      (p : ℤ) (n : Node)
      → on_side bid n.order.side ≡ true
      → n.order.price ≡ p
      → on_level bid p n ≡ true
  on_level_at p n s e = rw (s, (eqb_ℤ_iff n.order.price p).1 e)

  pub off_level_at : (p : ℤ) (n : Node) → same o n.order.price p ≡ false → on_level bid p n ≡ false
  off_level_at p n s = ground (arith, eqb_ℤ_iff n.order.price p, same_iff o n.order.price p)

  level_nodes-append_on :
      (p : ℤ) (flat : List Node) (n : Node)
      → on_level bid p n ≡ true
      → level_nodes bid p (flat ++ n ∷ []) ≡ level_nodes bid p flat ++ n ∷ []
  level_nodes-append_on p flat n h = rw (filter-append (on_level bid p) flat (n ∷ []), h)

  level_nodes-append_off :
      (p : ℤ) (flat : List Node) (n : Node)
      → on_level bid p n ≡ false
      → level_nodes bid p (flat ++ n ∷ []) ≡ level_nodes bid p flat
  level_nodes-append_off p flat n h =
      rw (filter-append (on_level bid p) flat (n ∷ []), h, append-nil)

  -- An order of the other side changes nothing here.
  pub Holds-append_off :
      {m : Levels} {flat : List Node} (n : Node)
      → on_side bid n.order.side ≡ false
      → Holds o bid m flat
      → Holds o bid m (flat ++ n ∷ [])
  Holds-append_off {flat} n off h = record {
    sorted = h.sorted;
    level = λ p. h.level p ∙ ap level_of (sym (level_nodes-append_off p flat n (rw off)));
  }

  pub Holds-remove_off :
      {m : Levels} {flat : List Node} (id : ℕ) (n : Node)
      → find_id id flat ≡ some n
      → on_side bid n.order.side ≡ false
      → Holds o bid m flat
      → Holds o bid m (remove_id id flat)
  Holds-remove_off {flat} id n e off h = record {
    sorted = h.sorted;
    level = λ p. h.level p ∙ ap level_of (sym (level_nodes-remove_off bid p id flat n e (rw off)));
  }

  pub Holds-fill_off :
      {m : Levels} {flat : List Node} (id x : ℕ) (n : Node)
      → find_id id flat ≡ some n
      → on_side bid n.order.side ≡ false
      → Holds o bid m flat
      → Holds o bid m (fill_id id x flat)
  Holds-fill_off {flat} id x n e off h = record {
    sorted = h.sorted;
    level = λ p. h.level p ∙ ap level_of (sym (level_nodes-fill_off bid p id x flat n e (rw off)));
  }

  pub insert_into-Holds :
      {m : Levels} {flat : List Node} (n : Node)
      → on_side bid n.order.side ≡ true
      → Holds o bid m flat
      → Holds o bid (insert_into o n m).1 (flat ++ n ∷ [])
  unfolding insert_into
  insert_into-Holds {m} {flat} n on h = record {
    sorted = Ordered.upsert-IsSorted o n.order.price (push_order n) m h.sorted;
    level = λ p. Ordered.find-upsert o n.order.price (push_order n) p m h.sorted ∙ at p;
  }
    where
      at :
          (p : ℤ)
          → (if same o n.order.price p
              then some (push_order n (Ordered.find o n.order.price m))
              else Ordered.find o p m)
            ≡ level_of (level_nodes bid p (flat ++ n ∷ []))
      at p = elim (Bool-cases (same o n.order.price p)) [
        | inl here ↦
            let e = (same_iff o n.order.price p).0 here in
            rw (here, ← e, level_nodes-append_on _ flat n (on_level_at _ n on refl), h.level)
              (push_order-level_of n (level_nodes bid n.order.price flat))
        | inr away ↦ rw (away, level_nodes-append_off p flat n (off_level_at p n away)) (h.level p)
      ]

  pub insert_into_total :
      {m : Levels} {flat : List Node} (n : Node)
      → on_side bid n.order.side ≡ true
      → Holds o bid m flat
      → (insert_into o n m).0 ≡ total_at bid n.order.price (flat ++ n ∷ [])
  unfolding insert_into
  insert_into_total {m} {flat} n on h =
      ap (λ l. (level_or_new l).total_quantity) ((insert_into-Holds n on h).level n.order.price)
      ∙ total_or_new (level_nodes bid n.order.price (flat ++ n ∷ []))
