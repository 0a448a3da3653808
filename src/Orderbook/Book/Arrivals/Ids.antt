-- ===== src/Orderbook/Book/Arrivals/Ids.antt =====
-- Orders by their id, when one arrives, leaves or is filled.
use mathlib.Core.Option
use low_latency_market_data.Common.{
  ℕ, ◌-◌, ◌≡◌, refl, List, [], ◌∷◌, ◌++◌, none, some, ◌==◌, ==_iff, if◌then◌else◌, arith,
  Bool-cases, inl, inr, All,
}
use low_latency_market_data.Common.Words.{IsU32}
use low_latency_market_data.Orderbook.Types.{Node}
use low_latency_market_data.Orderbook.Book.Arrivals.{
  find_id, remove_id, fill_id, with_quantity, IsDistinct,
}

pub find_id→id :
    (id : ℕ) (ns : List Node) {n : Node} → find_id id ns ≡ some n → n.order.order_id ≡ id
find_id→id id [] e = absurd (cc)
find_id→id id (m ∷ ns) {n} e = elim (Bool-cases (m.order.order_id == id)) [
  | inl hit ↦ ground arith
  | inr miss ↦ find_id→id id ns {n = n} (ground arith)
]

pub find_id-append :
    (j : ℕ) (ns : List Node) (n : Node)
    → find_id n.order.order_id ns ≡ none
    → find_id j (ns ++ n ∷ []) ≡ (if n.order.order_id == j then some n else find_id j ns)
find_id-append j [] n h = refl
find_id-append j (m ∷ ns) n h = ground (arith, find_id-append j ns n)

pub IsDistinct-append :
    (ns : List Node) (n : Node)
    → find_id n.order.order_id ns ≡ none
    → IsDistinct ns
    → IsDistinct (ns ++ n ∷ [])
IsDistinct-append [] n h d = (refl, tt)
IsDistinct-append (m ∷ ns) n h d = (
  ground (arith, find_id-append m.order.order_id ns n),
  IsDistinct-append ns n (ground arith) d.1,
)

pub find_id-remove :
    (j id : ℕ) (ns : List Node)
    → IsDistinct ns
    → find_id j (remove_id id ns) ≡ (if id == j then none else find_id j ns)
find_id-remove j id [] d = ground arith
find_id-remove j id (m ∷ ns) d = elim (Bool-cases (m.order.order_id == id)) [
  | inl hit ↦ elim (Bool-cases (id == j)) [
    | inl target ↦
        rw (hit, target, ← (==_iff id j).0 target, ← (==_iff m.order.order_id id).0 hit) d.0
    | inr other ↦ ground arith
  ]
  | inr miss ↦ ground (arith, find_id-remove j id ns d.1)
]

pub IsDistinct-remove : (id : ℕ) (ns : List Node) → IsDistinct ns → IsDistinct (remove_id id ns)
IsDistinct-remove id [] d = d
IsDistinct-remove id (m ∷ ns) d = elim (Bool-cases (m.order.order_id == id)) [
  | inl hit ↦ rw hit d.1
  | inr miss ↦
      rw miss
        (ground (arith, find_id-remove m.order.order_id id ns d.1), IsDistinct-remove id ns d.1)
]

abbrev pub fill_node : ℕ → Node → Node
fill_node x n = with_quantity n (n.order.quantity - x)

pub find_id-fill :
    (j id x : ℕ) (ns : List Node)
    → find_id j (fill_id id x ns)
      ≡ (if id == j then Option.map (fill_node x) (find_id j ns) else find_id j ns)
find_id-fill j id x [] = ground arith
find_id-fill j id x (m ∷ ns) = ground (arith, find_id-fill j id x ns)

pub IsDistinct-fill : (id x : ℕ) (ns : List Node) → IsDistinct ns → IsDistinct (fill_id id x ns)
IsDistinct-fill id x [] d = d
IsDistinct-fill id x (m ∷ ns) d = elim (Bool-cases (m.order.order_id == id)) [
  | inl hit ↦ rw hit d
  | inr miss ↦
      rw miss (ground (arith, find_id-fill m.order.order_id id x ns), IsDistinct-fill id x ns d.1)
]

-- The quantities are those of a uint32_t.
abbrev pub IsSmall : List Node → Type 0
IsSmall ns = All (λ n. IsU32 n.order.quantity) ns

pub IsSmall-append :
    (ns : List Node) (n : Node) → IsU32 n.order.quantity → IsSmall ns → IsSmall (ns ++ n ∷ [])
IsSmall-append [] n h s = (h, tt)
IsSmall-append (m ∷ ns) n h s = (s.0, IsSmall-append ns n h s.1)

pub IsSmall-remove : (id : ℕ) (ns : List Node) → IsSmall ns → IsSmall (remove_id id ns)
IsSmall-remove id [] s = s
IsSmall-remove id (m ∷ ns) s = elim (Bool-cases (m.order.order_id == id)) [
  | inl hit ↦ rw hit s.1
  | inr miss ↦ rw miss (s.0, IsSmall-remove id ns s.1)
]

pub IsSmall-fill : (id x : ℕ) (ns : List Node) → IsSmall ns → IsSmall (fill_id id x ns)
IsSmall-fill id x [] s = s
IsSmall-fill id x (m ∷ ns) s = elim (Bool-cases (m.order.order_id == id)) [
  | inl hit ↦ rw hit (omega arith, s.1)
  | inr miss ↦ rw miss (s.0, IsSmall-fill id x ns s.1)
]

pub IsSmall-find :
    (id : ℕ) (ns : List Node) (n : Node)
    → IsSmall ns
    → find_id id ns ≡ some n
    → IsU32 n.order.quantity
IsSmall-find id [] n s e = absurd (cc)
IsSmall-find id (m ∷ ns) n s e = elim (Bool-cases (m.order.order_id == id)) [
  | inl hit ↦ ground arith
  | inr miss ↦ IsSmall-find id ns n s.1 (ground arith)
]
