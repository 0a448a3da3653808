-- ===== src/Orderbook/Book/Refusals.antt =====
-- Messages that an order book refuses.
use mathlib.Core.Path.{subst}
use low_latency_market_data.Common.{
  ℕ, ◌≡◌, refl, ap, Option, none, some, ◌>>=◌, Bool, true, false, ltb, ◌==◌, if◌then◌else◌, is_some,
  ok, err, Option-cases, Bool-cases, inl, inr,
}
use low_latency_market_data.Common.Words.{sub32}
use low_latency_market_data.Common.Maps
use low_latency_market_data.Common.Maps.{nat_eq}
use low_latency_market_data.Protocol.Messages.{
  ExecuteOrder, ReplaceOrder, DecodedMessage, add, cancel, execute, replace,
}
use low_latency_market_data.Orderbook.Types.{
  ApplyError, duplicate_order_id, ApplyResult, OrderLocation, add_delta,
}
use low_latency_market_data.Orderbook.Book.{
  Book, Applied, has_order, level_for, find_node, insert_resting_order, remove_resting_order,
  one_delta, fill, write_level, apply, apply_add, apply_cancel, apply_found, apply_located,
  apply_execute, apply_replace, replace_located,
}

-- A replacement of an order that the book has, by an id that it has too.
pub replace_taken :
    (b : Book) (m : ReplaceOrder)
    → has_order b m.old_order_id ≡ true
    → has_order b m.new_order_id ≡ true
    → apply b (replace m) ≡ some (err duplicate_order_id, b)
unfolding has_order apply apply_replace replace_located
replace_taken b m old new = elim (Option-cases (Maps.lookup m.old_order_id b.order_index)) [
  | inl e ↦ absurd (cc (ap is_some e))
  | inr (loc, e) ↦ rw (e, new)
]

-- A refusal leaves the book as it was.
abbrev Refused : Book → Option Applied → Type 0
Refused b none = Unit {0}
Refused b (some (err e, b')) = b' ≡ b
Refused b (some (ok r, b')) = Unit {0}

if-Refused :
    (b : Book) (c : Bool) (x y : Option Applied)
    → Refused b x
    → Refused b y
    → Refused b (if c then x else y)
if-Refused b true x y p q = p
if-Refused b false x y p q = q

ok-Refused :
    {T : Type 0} (b : Book) (x : Option T) (f : T → ApplyResult) (g : T → Book)
    → Refused b (x >>= λ t. some (ok (f t), g t))
ok-Refused b none f g = tt
ok-Refused b (some t) f g = tt

apply_found-Refused :
    (b : Book) (m : ExecuteOrder) (loc : OrderLocation) → Refused b (apply_found b m loc)
unfolding apply_found
apply_found-Refused b m loc = elim (Option-cases (level_for b loc.side loc.price)) [
  | inl no_level ↦ rw no_level tt
  | inr (level, l) ↦ elim (Option-cases (find_node loc.it level.orders)) [
    | inl no_node ↦ rw (l, no_node) tt
    | inr (node, n) ↦
        rw (l, n)
          (if-Refused b (ltb node.order.quantity m.executed_quantity) _ _ refl (
            if-Refused b (sub32 node.order.quantity m.executed_quantity == 0) _ _
              (ok-Refused b
                (remove_resting_order (write_level b loc (fill loc node m.executed_quantity level))
                  m.order_id)
                (λ t. one_delta t.0) (λ t. t.1))
              tt))
  ]
]

apply_located-Refused :
    (b : Book) (m : ExecuteOrder) (loc : Option OrderLocation) → Refused b (apply_located b m loc)
unfolding apply_located
apply_located-Refused b m none = refl
apply_located-Refused b m (some loc) = apply_found-Refused b m loc

replace_located-Refused :
    (b : Book) (m : ReplaceOrder) (loc : Option OrderLocation) → Refused b (replace_located b m loc)
unfolding replace_located
replace_located-Refused b m none = refl
replace_located-Refused b m (some loc) =
    if-Refused b (Maps.contains m.new_order_id b.order_index) _ _ refl (
      ok-Refused b (remove_resting_order b m.old_order_id)
        (λ t. add_delta (one_delta t.0) loc.side m.price (moved t.1).0) (λ t. (moved t.1).1))
  where
    moved : Book → ℕ × Book
    moved b' = insert_resting_order b' (record {
      order_id = m.new_order_id;
      side = loc.side;
      price = m.price;
      quantity = m.quantity;
    })

apply-Refused : (b : Book) (m : DecodedMessage) → Refused b (apply b m)
unfolding apply apply_add apply_cancel apply_execute apply_replace
apply-Refused b (add m) = elim (Bool-cases (Maps.contains m.order_id b.order_index)) [
  | inl taken ↦ rw taken refl
  | inr new ↦ rw new tt
]
apply-Refused b (cancel m) =
    if-Refused b (Maps.contains m.order_id b.order_index) _ _
      (ok-Refused b (remove_resting_order b m.order_id) (λ t. one_delta t.0) (λ t. t.1)) refl
apply-Refused b (execute m) = apply_located-Refused b m (Maps.lookup m.order_id b.order_index)
apply-Refused b (replace m) = replace_located-Refused b m (Maps.lookup m.old_order_id b.order_index)

-- On every book, a message of any type that is answered with an error leaves the book as it was.
pub refused_unchanged :
    (b b' : Book) (m : DecodedMessage) (e : ApplyError) → apply b m ≡ some (err e, b') → b' ≡ b
refused_unchanged b b' m e run = subst (Refused b) run (apply-Refused b m)
