-- ===== src/Orderbook/Book/Views/Depth.antt =====
-- `depth_snapshot` in terms of the orders that rest in the book.
use low_latency_market_data.Common.{
  ℕ, zero, suc, ◌+◌, ◌-◌, ◌≤◌, ◌≡◌, ◌≢◌, ◌⊎◌, inl, inr, refl, sym, ap, ◌∙◌, List, [], ◌∷◌, map,
  some, Bool, true, false, ◌||◌, eqb_ℤ, eqb_ℤ_iff, length, take, leb, ℤ, All, arith, Bool-cases,
  Option-cases,
}
use low_latency_market_data.Common.Ordered
use low_latency_market_data.Common.Ordered.{
  Compare, same, same_iff, less_ne, same_refl, find-Above, Above-lower, Above-IsSorted,
}
use low_latency_market_data.Orderbook.Types.{
  PriceLevelView, Node, Level, Levels, ascending, descending,
}
use low_latency_market_data.Orderbook.Spec.{Orders, level_orders}
use low_latency_market_data.Orderbook.Book.{Book}
use low_latency_market_data.Orderbook.Book.Sides.{Holds}
use low_latency_market_data.Orderbook.Book.Represents.{Represents}
use low_latency_market_data.Orderbook.Book.Forget.{orders}
use low_latency_market_data.Orderbook.Book.Views.{level_view, depth_loop, depth_snapshot}
use low_latency_market_data.Orderbook.Book.Views.Best.{better, IsView, level_view-IsView, nobody}

-- Each view is of a better price than those behind it.
abbrev pub BestFirst : Bool → List PriceLevelView → Type 0
BestFirst bid [] = Unit {0}
BestFirst bid (v ∷ vs) = All (λ w. better bid v.price w.price ≡ true) vs × BestFirst bid vs

abbrev pub shows : ℤ → List PriceLevelView → Bool
shows p [] = false
shows p (v ∷ vs) = eqb_ℤ v.price p || shows p vs

-- The views are of the best prices of the side, as many as asked for if there are so many.
pub record IsDepth (bid : Bool) (os : Orders) (n : ℕ) (vs : List PriceLevelView) : Type 0 where
  pub few : length vs ≤ n
  pub views : All (λ v. IsView bid os v) vs
  pub best_first : BestFirst bid vs
  pub complete :
      (p : ℤ)
      → level_orders bid p os ≢ []
      → (shows p vs ≡ true) ⊎ ((length vs ≡ n) × All (λ v. better bid v.price p ≡ true) vs)

take-nil : (k : ℕ) → ◌≡◌ {A = List PriceLevelView} (take k []) []
take-nil zero = refl
take-nil (suc k) = refl

depth_loop-take : (n c : ℕ) (m : Levels) → depth_loop n c m ≡ take (n - c) (map level_view m)
unfolding depth_loop
depth_loop-take n c [] = sym (take-nil (n - c))
depth_loop-take n c (e ∷ m) = elim (Bool-cases (leb n c)) [
  | inl enough ↦ let none_left : n - c ≡ 0 = ground arith in rw (enough, none_left)
  | inr more ↦
      let next : n - c ≡ suc (n - (c + 1)) = ground arith in
      rw (more, next) (ap (λ vs. level_view e ∷ vs) (depth_loop-take n (c + 1) m))
]

take-few : (k : ℕ) (vs : List PriceLevelView) → length (take k vs) ≤ k
take-few zero vs = omega arith
take-few (suc k) [] = omega arith
take-few (suc k) (v ∷ vs) = omega (arith, take-few k vs)

All-take :
    (P : PriceLevelView → Type 0) (k : ℕ) (vs : List PriceLevelView) → All P vs → All P (take k vs)
All-take P zero vs a = tt
All-take P (suc k) [] a = tt
All-take P (suc k) (v ∷ vs) a = (a.0, All-take P k vs a.1)

BestFirst-take :
    (bid : Bool) (k : ℕ) (vs : List PriceLevelView) → BestFirst bid vs → BestFirst bid (take k vs)
BestFirst-take bid zero vs b = tt
BestFirst-take bid (suc k) [] b = tt
BestFirst-take bid (suc k) (v ∷ vs) b = (All-take _ k vs b.0, BestFirst-take bid k vs b.1)

module _ (o : Compare ℤ) (bid : Bool) (agree : (p q : ℤ) → better bid p q ≡ o.less p q) where
  Above-better :
      (j : ℤ) (m : Levels)
      → Ordered.Above o j m
      → All (λ w. better bid j w.price ≡ true) (map level_view m)
  unfolding level_view
  Above-better j [] a = tt
  Above-better j ((i, l) ∷ m) a = (agree j i ∙ a.0, Above-better j m (Above-lower o j i m a.0 a.1))

  map-BestFirst : (m : Levels) → Ordered.IsSorted o m → BestFirst bid (map level_view m)
  unfolding level_view
  map-BestFirst [] s = tt
  map-BestFirst ((j, l) ∷ m) s = (Above-better j m s, map-BestFirst m (Above-IsSorted o j m s))

  find_less :
      (j p : ℤ) (m : Levels) (l : Level)
      → Ordered.Above o j m
      → Ordered.find o p m ≡ some l
      → o.less j p ≡ true
  unfolding Ordered.find
  find_less j p [] l a e = absurd (cc)
  find_less j p ((i, k) ∷ m) l a e = elim (Bool-cases (same o i p)) [
    | inl hit ↦ rw (← (same_iff o i p).0 hit) a.0
    | inr miss ↦ o.trans j i p a.0 (find_less i p m l a.1 (ground arith))
  ]

  shows-take :
      (k : ℕ) (p : ℤ) (m : Levels) (l : Level)
      → Ordered.IsSorted o m
      → Ordered.find o p m ≡ some l
      → (shows p (take k (map level_view m)) ≡ true)
        ⊎ ((length (take k (map level_view m)) ≡ k)
            × All (λ v. better bid v.price p ≡ true) (take k (map level_view m)))
  unfolding Ordered.find level_view
  shows-take zero p m l s e = inr (refl, tt)
  shows-take (suc k) p [] l s e = absurd (cc)
  shows-take (suc k) p ((j, h) ∷ m) l s e = elim (Bool-cases (same o j p)) [
    | inl hit ↦ inl (rw ((eqb_ℤ_iff j p).1 ((same_iff o j p).0 hit)))
    | inr miss ↦ elim (shows-take k p m l (Above-IsSorted o j m s) (ground arith)) [
      | inl shown ↦ inl (ground arith)
      | inr (len, all) ↦ inr (ap suc len, (agree j p ∙ find_less j p m l s (ground arith), all))
    ]
  ]

  module _ (flat : List Node) where
    map-IsView :
        (m : Levels)
        → ((p : ℤ) (l : Level)
            → Ordered.find o p m ≡ some l
            → IsView bid (orders flat) (level_view (p, l)))
        → Ordered.IsSorted o m
        → All (λ v. IsView bid (orders flat) v) (map level_view m)
    unfolding Ordered.find
    map-IsView [] sees s = tt
    map-IsView ((j, h) ∷ m) sees s = (
      sees j h (rw (same_refl o j)),
      map-IsView m (λ p l e. sees p l (rw ((less_ne o j p (find_less j p m l s e)).0) e))
          (Above-IsSorted o j m s),
    )

    pub take-IsDepth :
        (n : ℕ) (m : Levels)
        → Holds o bid m flat
        → IsDepth bid (orders flat) n (take n (map level_view m))
    take-IsDepth n m h = record {
      few = take-few n (map level_view m);
      views =
          All-take _ n (map level_view m)
            (map-IsView m (λ p l e. level_view-IsView o bid flat m p l h e) h.sorted);
      best_first = BestFirst-take bid n (map level_view m) (map-BestFirst m h.sorted);
      complete = λ p some_rest. elim (Option-cases (Ordered.find o p m)) [
        | inl e ↦ absurd (some_rest (nobody o bid flat m p h e))
        | inr (l, e) ↦ shows-take n p m l h.sorted e
      ];
    }

-- On a book that represents a list of orders, each side of `depth_snapshot` has at most as many
-- levels as asked for, the best price first, each with the number of its orders and the 32-bit sum of
-- their quantities; a price of the side at which an order rests is among them, unless there are as
-- many as asked for, all of a better price.
pub depth_snapshot_lem :
    (b : Book) (flat : List Node) (n : ℕ)
    → Represents b flat
    → IsDepth true (orders flat) n (depth_snapshot b n).bids
      × IsDepth false (orders flat) n (depth_snapshot b n).asks
unfolding depth_snapshot
depth_snapshot_lem b flat n r =
    let all : n - 0 ≡ n = omega arith in
    (
      rw (depth_loop-take n 0 b.bids, all)
          (take-IsDepth descending true (λ p q. refl) flat n b.bids r.bids),
      rw (depth_loop-take n 0 b.asks, all)
          (take-IsDepth ascending false (λ p q. refl) flat n b.asks r.asks),
    )
