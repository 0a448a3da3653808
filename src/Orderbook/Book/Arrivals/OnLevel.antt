-- ===== src/Orderbook/Book/Arrivals/OnLevel.antt =====
-- The orders of one level, when an order arrives, leaves or is filled.
use low_latency_market_data.Common.{
  ℕ, suc, ◌+◌, ◌-◌, ◌≤◌, ◌≡◌, refl, List, [], ◌∷◌, ◌++◌, some, Bool, true, false, ◌==◌, ==_refl, ℤ,
  arith, Bool-cases, inl, inr,
}
use low_latency_market_data.Orderbook.Types.{Node}
use low_latency_market_data.Orderbook.Book.{find_node, erase_node, set_quantity}
use low_latency_market_data.Orderbook.Book.Arrivals.{
  find_id, remove_id, fill_id, on_level, level_nodes, sum_quantity, Rising, Rising-find,
}

pub sum_quantity-append :
    (ns : List Node) (n : Node) → sum_quantity (ns ++ n ∷ []) ≡ sum_quantity ns + n.order.quantity
sum_quantity-append [] n = omega arith
sum_quantity-append (m ∷ ns) n = omega (arith, sum_quantity-append ns n)

module _ (bid : Bool) (p : ℤ) (id : ℕ) where
  -- An order that is not on the level leaves it as it is.
  pub level_nodes-remove_off :
      (ns : List Node) (n : Node)
      → find_id id ns ≡ some n
      → on_level bid p n ≡ false
      → level_nodes bid p (remove_id id ns) ≡ level_nodes bid p ns
  level_nodes-remove_off [] n e off = refl
  level_nodes-remove_off (m ∷ ns) n e off = elim (Bool-cases (m.order.order_id == id)) [
    | inl hit ↦ let same : some m ≡ some n = rw hit at e in let is : m ≡ n = cc in rw (hit, is, off)
    | inr miss ↦ let rest = level_nodes-remove_off ns n (rw miss at e) off in rw (miss, rest)
  ]

  pub level_nodes-fill_off :
      (x : ℕ) (ns : List Node) (n : Node)
      → find_id id ns ≡ some n
      → on_level bid p n ≡ false
      → level_nodes bid p (fill_id id x ns) ≡ level_nodes bid p ns
  level_nodes-fill_off x [] n e off = refl
  level_nodes-fill_off x (m ∷ ns) n e off = elim (Bool-cases (m.order.order_id == id)) [
    | inl hit ↦ let same : some m ≡ some n = rw hit at e in let is : m ≡ n = cc in rw (hit, is, off)
    | inr miss ↦ let rest = level_nodes-fill_off x ns n (rw miss at e) off in rw (miss, rest)
  ]

  -- The iterator of an order on the level leads to its node.
  pub find_node-level_nodes :
      (lo : ℕ) (ns : List Node) (hi : ℕ) (n : Node)
      → Rising lo ns hi
      → find_id id ns ≡ some n
      → on_level bid p n ≡ true
      → find_node n.addr (level_nodes bid p ns) ≡ some n
  unfolding find_node
  find_node-level_nodes lo [] hi n r e on = absurd (cc)
  find_node-level_nodes lo (m ∷ ns) hi n r e on = elim (Bool-cases (m.order.order_id == id)) [
    | inl hit ↦
        let same : some m ≡ some n = rw hit at e in
        let is : m ≡ n = cc in rw (is, on, ==_refl n.addr)
    | inr miss ↦
        let found : find_id id ns ≡ some n = rw miss at e in
        let rest = find_node-level_nodes (suc m.addr) ns hi n r.1 found on in
        let above = Rising-find (suc m.addr) id ns hi n r.1 found in ground (arith, rest, above)
  ]

  pub erase_node-level_nodes :
      (lo : ℕ) (ns : List Node) (hi : ℕ) (n : Node)
      → Rising lo ns hi
      → find_id id ns ≡ some n
      → on_level bid p n ≡ true
      → erase_node n.addr (level_nodes bid p ns) ≡ level_nodes bid p (remove_id id ns)
  unfolding erase_node
  erase_node-level_nodes lo [] hi n r e on = absurd (cc)
  erase_node-level_nodes lo (m ∷ ns) hi n r e on = elim (Bool-cases (m.order.order_id == id)) [
    | inl hit ↦
        let same : some m ≡ some n = rw hit at e in
        let is : m ≡ n = cc in rw (hit, is, on, ==_refl n.addr)
    | inr miss ↦
        let found : find_id id ns ≡ some n = rw miss at e in
        let rest = erase_node-level_nodes (suc m.addr) ns hi n r.1 found on in
        let above = Rising-find (suc m.addr) id ns hi n r.1 found in ground (arith, rest, above)
  ]

  pub set_quantity-level_nodes :
      (x lo : ℕ) (ns : List Node) (hi : ℕ) (n : Node)
      → Rising lo ns hi
      → find_id id ns ≡ some n
      → on_level bid p n ≡ true
      → set_quantity n.addr (n.order.quantity - x) (level_nodes bid p ns)
        ≡ level_nodes bid p (fill_id id x ns)
  unfolding set_quantity
  set_quantity-level_nodes x lo [] hi n r e on = absurd (cc)
  set_quantity-level_nodes x lo (m ∷ ns) hi n r e on = elim (Bool-cases (m.order.order_id == id)) [
    | inl hit ↦
        let same : some m ≡ some n = rw hit at e in
        let is : m ≡ n = cc in rw (hit, is, on, ==_refl n.addr)
    | inr miss ↦
        let found : find_id id ns ≡ some n = rw miss at e in
        let rest = set_quantity-level_nodes x (suc m.addr) ns hi n r.1 found on in
        let above = Rising-find (suc m.addr) id ns hi n r.1 found in ground (arith, rest, above)
  ]

  -- An order that leaves takes its quantity off the sum.
  pub sum_quantity-remove :
      (ns : List Node) (n : Node)
      → find_id id ns ≡ some n
      → on_level bid p n ≡ true
      → sum_quantity (level_nodes bid p ns)
        ≡ n.order.quantity + sum_quantity (level_nodes bid p (remove_id id ns))
  sum_quantity-remove [] n e on = absurd (cc)
  sum_quantity-remove (m ∷ ns) n e on = elim (Bool-cases (m.order.order_id == id)) [
    | inl hit ↦ let same : some m ≡ some n = rw hit at e in let is : m ≡ n = cc in rw (hit, is, on)
    | inr miss ↦ let rest = sum_quantity-remove ns n (rw miss at e) on in ground (arith, rest)
  ]

  pub sum_quantity-fill :
      (x : ℕ) (ns : List Node) (n : Node)
      → find_id id ns ≡ some n
      → on_level bid p n ≡ true
      → x ≤ n.order.quantity
      → sum_quantity (level_nodes bid p ns) ≡ x + sum_quantity (level_nodes bid p (fill_id id x ns))
  sum_quantity-fill x [] n e on le = absurd (cc)
  sum_quantity-fill x (m ∷ ns) n e on le = elim (Bool-cases (m.order.order_id == id)) [
    | inl hit ↦
        let same : some m ≡ some n = rw hit at e in
        let is : m ≡ n = cc in rw (hit, is, on) (omega arith)
    | inr miss ↦ let rest = sum_quantity-fill x ns n (rw miss at e) on le in ground (arith, rest)
  ]
