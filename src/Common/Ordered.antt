-- ===== src/Common/Ordered.antt =====
-- std::map as a list of entries in the order of its comparator, which is a parameter.
use mathlib.Core.Path.{◌≡◌, refl, subst}
use mathlib.Core.Logic.{◌↔◌, inl, inr}
use mathlib.Core.Bool.{Bool, true, false, not, ◌&&◌}
use mathlib.Core.Option.{Option, none, some}
use mathlib.Core.List.{List, [], ◌∷◌}
use native.Mathlib.Omega.{arith}
use low_latency_market_data.Common.Tests.{if◌then◌else◌, Bool-cases}

-- A comparator: a strict total order.
pub record Compare (K : Type 0) : Type 0 where
  pub less : K → K → Bool
  pub irrefl : (a : K) → less a a ≡ false
  pub trans : (a b c : K) → less a b ≡ true → less b c ≡ true → less a c ≡ true
  pub connected : (a b : K) → less a b ≡ false → less b a ≡ false → a ≡ b

module _ {K : Type 0} (o : Compare K) where
  -- Two keys are one if neither is less than the other.
  pub same : K → K → Bool
  same a b = not (o.less a b) && not (o.less b a)

  pub same_iff : (a b : K) → (same a b ≡ true) ↔ (a ≡ b)
  unfolding same
  same_iff a b = (
    (λ h. o.connected a b (ground arith) (ground arith)),
    (λ e.
        subst (λ c. (not (o.less a c) && not (o.less c a)) ≡ true) e (ground (arith, o.irrefl a))),
  )

  pub less_ne : (a b : K) → o.less a b ≡ true → (same a b ≡ false) × (same b a ≡ false)
  unfolding same
  less_ne a b h = ground arith

  less_of : (a b : K) → same a b ≡ false → o.less b a ≡ false → o.less a b ≡ true
  unfolding same
  less_of a b n h = ground arith

  pub same_refl : (a : K) → same a a ≡ true
  same_refl a = (same_iff a a).1 refl

  pub same_ne : (a b : K) → (a ≡ b → ⊥) → same a b ≡ false
  same_ne a b h = ground (arith, same_iff a b)

module _ {K V : Type 0} (o : Compare K) where
  unfoldable pub find : K → List (K × V) → Option V
  find k [] = none
  find k ((j, v) ∷ m) = if same o j k then some v else find k m

  -- `m[k]`, made by default where it is missing, and changed by `f`.
  pub upsert : K → (Option V → V) → List (K × V) → List (K × V)
  upsert k f [] = (k, f none) ∷ []
  upsert k f ((j, v) ∷ m) =
      if same o j k
      then (j, f (some v)) ∷ m
      else if o.less k j
      then (k, f none) ∷ (j, v) ∷ m
      else (j, v) ∷ upsert k f m

  pub erase : K → List (K × V) → List (K × V)
  erase k [] = []
  erase k ((j, v) ∷ m) = if same o j k then m else (j, v) ∷ erase k m

  -- The keys of `m` rise, and lie above `k`.
  abbrev pub Above : K → List (K × V) → Type 0
  Above k [] = Unit {0}
  Above k ((j, v) ∷ m) = (o.less k j ≡ true) × Above j m

  abbrev pub IsSorted : List (K × V) → Type 0
  IsSorted [] = Unit {0}
  IsSorted ((j, v) ∷ m) = Above j m

  pub Above-lower : (i j : K) (m : List (K × V)) → o.less i j ≡ true → Above j m → Above i m
  Above-lower i j [] h a = tt
  Above-lower i j ((k, v) ∷ m) h a = (o.trans i j k h a.0, a.1)

  pub find-Above : (k : K) (m : List (K × V)) → Above k m → find k m ≡ none
  unfolding find
  find-Above k [] a = refl
  find-Above k ((j, v) ∷ m) a =
      rw ((less_ne o k j a.0).1) (find-Above k m (Above-lower k j m a.0 a.1))

  pub Above-IsSorted : (k : K) (m : List (K × V)) → Above k m → IsSorted m
  Above-IsSorted k [] a = tt
  Above-IsSorted k ((j, v) ∷ m) a = a.1

  find_below : (j k : K) (m : List (K × V)) → same o j k ≡ true → Above j m → find k m ≡ none
  find_below j k m e a = subst (λ i. find i m ≡ none) ((same_iff o j k).0 e) (find-Above j m a)

  module _ (k : K) (f : Option V → V) where
    pub find-upsert :
        (j : K) (m : List (K × V))
        → IsSorted m
        → find j (upsert k f m) ≡ (if same o k j then some (f (find k m)) else find j m)
    unfolding find upsert
    find-upsert j [] h = refl
    find-upsert j ((i, v) ∷ m) h = elim (Bool-cases (same o i k)) [
      | inl hit ↦ ground (arith, same_iff o i k, same_iff o i j, same_iff o k j)
      | inr miss ↦ elim (Bool-cases (o.less k i)) [
        | inl before ↦ ground (arith, find-Above k m (Above-lower k i m before h))
        | inr after ↦ ground (
          arith,
          find-upsert j m (Above-IsSorted i m h),
          same_iff o i k,
          same_iff o i j,
          same_iff o k j,
        )
      ]
    ]

    upsert-Above :
        (j : K) (m : List (K × V)) → o.less j k ≡ true → Above j m → Above j (upsert k f m)
    unfolding upsert
    upsert-Above j [] l a = (l, tt)
    upsert-Above j ((i, v) ∷ m) l a = elim (Bool-cases (same o i k)) [
      | inl hit ↦ rw hit a
      | inr miss ↦ elim (Bool-cases (o.less k i)) [
        | inl before ↦ rw (miss, before) (l, (before, a.1))
        | inr after ↦ rw (miss, after) (a.0, upsert-Above i m (less_of o i k miss after) a.1)
      ]
    ]

    pub upsert-IsSorted : (m : List (K × V)) → IsSorted m → IsSorted (upsert k f m)
    unfolding upsert
    upsert-IsSorted [] h = tt
    upsert-IsSorted ((i, v) ∷ m) h = elim (Bool-cases (same o i k)) [
      | inl hit ↦ rw hit h
      | inr miss ↦ elim (Bool-cases (o.less k i)) [
        | inl before ↦ rw (miss, before) (before, h)
        | inr after ↦ rw (miss, after) (upsert-Above i m (less_of o i k miss after) h)
      ]
    ]

  pub erase-Above : (j k : K) (m : List (K × V)) → Above j m → Above j (erase k m)
  unfolding erase
  erase-Above j k [] a = tt
  erase-Above j k ((i, v) ∷ m) a = elim (Bool-cases (same o i k)) [
    | inl hit ↦ rw hit (Above-lower j i m a.0 a.1)
    | inr miss ↦ rw miss (a.0, erase-Above i k m a.1)
  ]

  pub erase-IsSorted : (k : K) (m : List (K × V)) → IsSorted m → IsSorted (erase k m)
  unfolding erase
  erase-IsSorted k [] h = tt
  erase-IsSorted k ((i, v) ∷ m) h = elim (Bool-cases (same o i k)) [
    | inl hit ↦ rw hit (Above-IsSorted i m h)
    | inr miss ↦ rw miss (erase-Above i k m h)
  ]

  pub find-erase :
      (k j : K) (m : List (K × V))
      → IsSorted m
      → find j (erase k m) ≡ (if same o k j then none else find j m)
  unfolding find erase
  find-erase k j [] h = ground arith
  find-erase k j ((i, v) ∷ m) h = elim (Bool-cases (same o i k)) [
    | inl hit ↦ elim (Bool-cases (same o k j)) [
      | inl target ↦ rw (hit, target) (find_below i j m (trans_same hit target) h)
      | inr other ↦ ground (arith, same_iff o i k, same_iff o i j, same_iff o k j)
    ]
    | inr miss ↦ ground (
      arith,
      find-erase k j m (Above-IsSorted i m h),
      same_iff o i k,
      same_iff o i j,
      same_iff o k j,
    )
  ]
    where
      trans_same : same o i k ≡ true → same o k j ≡ true → same o i j ≡ true
      trans_same p q = ground (arith, same_iff o i k, same_iff o i j, same_iff o k j)
