-- ===== src/Common/Lists.antt =====
-- Lists measured and indexed by native numbers: arrays, spans and vectors of the source.
use Prim.Native.Nat.{ℕ, zero, suc, ◌+◌, ◌-◌, ◌<◌}
use mathlib.Core.Path.{◌≡◌, refl, ap, ◌∙◌}
use mathlib.Core.Bool.{Bool}
use mathlib.Core.Logic.{◌≢◌, inl, inr}
use low_latency_market_data.Common.Tests.{if◌then◌else◌, Bool-cases}
use mathlib.Core.List.{List, [], ◌∷◌, ◌++◌}
use mathlib.Core.Option.{Option, none, some, some-injective}
use mathlib.Core.Path.{subst}
use native.Mathlib.Omega.{arith}

suc_add : (m n : ℕ) → suc (n + m) ≡ suc n + m
suc_add m n = omega arith

module _ {ℓ} {A : Type ℓ} where
  abbrev pub length : List A → ℕ
  length [] = 0
  length (x ∷ xs) = suc (length xs)

  abbrev pub get_elem? : List A → ℕ → Option A
  get_elem? [] i = none
  get_elem? (x ∷ xs) zero = some x
  get_elem? (x ∷ xs) (suc i) = get_elem? xs i

  abbrev pub get_or : List A → ℕ → A → A
  get_or [] i d = d
  get_or (x ∷ xs) zero d = x
  get_or (x ∷ xs) (suc i) d = get_or xs i d

  -- A write out of bounds changes nothing.
  abbrev pub set : List A → ℕ → A → List A
  set [] i v = []
  set (x ∷ xs) zero v = v ∷ xs
  set (x ∷ xs) (suc i) v = x ∷ set xs i v

  abbrev pub take : ℕ → List A → List A
  take zero xs = []
  take (suc n) [] = []
  take (suc n) (x ∷ xs) = x ∷ take n xs

  abbrev pub drop : ℕ → List A → List A
  drop zero xs = xs
  drop (suc n) [] = []
  drop (suc n) (x ∷ xs) = drop n xs

  abbrev pub replicate : ℕ → A → List A
  replicate zero a = []
  replicate (suc n) a = a ∷ replicate n a

  pub length-append : (xs ys : List A) → length (xs ++ ys) ≡ length xs + length ys
  length-append [] ys = omega arith
  length-append (x ∷ xs) ys = omega (arith, length-append xs ys)

  pub length-set : (xs : List A) (i : ℕ) (v : A) → length (set xs i v) ≡ length xs
  length-set [] i v = refl
  length-set (x ∷ xs) zero v = refl
  length-set (x ∷ xs) (suc i) v = ap suc (length-set xs i v)

  pub length-drop : (n : ℕ) (xs : List A) → length (drop n xs) ≡ length xs - n
  length-drop zero xs = omega arith
  length-drop (suc n) [] = omega arith
  length-drop (suc n) (x ∷ xs) = omega (arith, length-drop n xs)

  pub length-replicate : (n : ℕ) (a : A) → length (replicate n a) ≡ n
  length-replicate zero a = refl
  length-replicate (suc n) a = ap suc (length-replicate n a)

  pub drop-append : (xs ys : List A) → drop (length xs) (xs ++ ys) ≡ ys
  drop-append [] ys = refl
  drop-append (x ∷ xs) ys = drop-append xs ys

  pub drop-nil : (n : ℕ) → drop n [] ≡ []
  drop-nil zero = refl
  drop-nil (suc n) = refl

  pub drop-drop : (m n : ℕ) (xs : List A) → drop m (drop n xs) ≡ drop (n + m) xs
  drop-drop m zero xs = ap (λ k. drop k xs) (omega arith)
  drop-drop m (suc n) [] = rw (drop-nil m, drop-nil (suc n + m))
  drop-drop m (suc n) (x ∷ xs) = drop-drop m n xs ∙ ap (λ k. drop k (x ∷ xs)) (suc_add m n)

module _ {A : Type 0} where
  pub get_elem?-below : (xs : List A) (i : ℕ) → i < length xs → (x : A) × (get_elem? xs i ≡ some x)
  get_elem?-below [] i h = absurd (omega arith)
  get_elem?-below (x ∷ xs) zero h = (x, refl)
  get_elem?-below (x ∷ xs) (suc i) h = get_elem?-below xs i (omega arith)

  pub get_elem?-append :
      (xs ys : List A) (i : ℕ) → i < length xs → get_elem? (xs ++ ys) i ≡ get_elem? xs i
  get_elem?-append [] ys i h = absurd (omega arith)
  get_elem?-append (x ∷ xs) ys zero h = refl
  get_elem?-append (x ∷ xs) ys (suc i) h = get_elem?-append xs ys i (omega arith)

  pub get_elem?-within : (xs : List A) (i : ℕ) (x : A) → get_elem? xs i ≡ some x → i < length xs
  get_elem?-within [] i x e = absurd (cc)
  get_elem?-within (y ∷ ys) zero x e = omega arith
  get_elem?-within (y ∷ ys) (suc i) x e = let below = get_elem?-within ys i x e in omega arith

  pub get_elem?-set :
      (xs : List A) (i : ℕ) (v x : A) → get_elem? xs i ≡ some x → get_elem? (set xs i v) i ≡ some v
  get_elem?-set [] i v x e = absurd (cc)
  get_elem?-set (y ∷ ys) zero v x e = refl
  get_elem?-set (y ∷ ys) (suc i) v x e = get_elem?-set ys i v x e

  -- What stands where a value was set is that value.
  pub get_elem?-set_same :
      (xs : List A) (i : ℕ) (v x : A) → get_elem? (set xs i v) i ≡ some x → v ≡ x
  get_elem?-set_same [] i v x e = absurd (cc)
  get_elem?-set_same (y ∷ ys) zero v x e = some-injective v x e
  get_elem?-set_same (y ∷ ys) (suc i) v x e = get_elem?-set_same ys i v x e

  pub get_elem?-set_other :
      (xs : List A) (i j : ℕ) (v : A) → i ≢ j → get_elem? (set xs i v) j ≡ get_elem? xs j
  get_elem?-set_other [] i j v ne = refl
  get_elem?-set_other (y ∷ ys) zero zero v ne = absurd (ne refl)
  get_elem?-set_other (y ∷ ys) zero (suc j) v ne = refl
  get_elem?-set_other (y ∷ ys) (suc i) zero v ne = refl
  get_elem?-set_other (y ∷ ys) (suc i) (suc j) v ne =
      get_elem?-set_other ys i j v (λ e. ne (ap suc e))

-- The part of a list that a test keeps.
abbrev pub filter {ℓ} : {A : Type ℓ} → (A → Bool) → List A → List A
filter p [] = []
filter p (x ∷ xs) = let rest = filter p xs in if p x then x ∷ rest else rest

pub filter-append {ℓ} :
    {A : Type ℓ} (p : A → Bool) (xs ys : List A) → filter p (xs ++ ys) ≡ filter p xs ++ filter p ys
filter-append p [] ys = refl
filter-append p (x ∷ xs) ys = elim (Bool-cases (p x)) [
  | inl kept ↦ rw (kept, filter-append p xs ys)
  | inr left ↦ rw (left, filter-append p xs ys)
]

abbrev pub All {ℓ κ} : {A : Type ℓ} → (A → Type κ) → List A → Type κ
All P [] = Unit {_}
All P (x ∷ xs) = P x × All P xs

module _ {A : Type 0} (P : A → Type 0) where
  pub All-get : (xs : List A) (i : ℕ) (x : A) → All P xs → get_elem? xs i ≡ some x → P x
  All-get [] i x all e = absurd (cc)
  All-get (y ∷ ys) zero x (p, all) e = subst P (some-injective _ _ e) p
  All-get (y ∷ ys) (suc i) x (p, all) e = All-get ys i x all e

  pub All-set : (xs : List A) (i : ℕ) (v : A) → All P xs → P v → All P (set xs i v)
  All-set [] i v all p = tt
  All-set (x ∷ xs) zero v (q, all) p = (p, all)
  All-set (x ∷ xs) (suc i) v (q, all) p = (q, All-set xs i v all p)

  pub All-snoc : (xs : List A) (v : A) → All P xs → P v → All P (xs ++ v ∷ [])
  All-snoc [] v all p = (p, tt)
  All-snoc (x ∷ xs) v (q, all) p = (q, All-snoc xs v all p)

  pub All-replicate : (n : ℕ) (v : A) → P v → All P (replicate n v)
  All-replicate zero v p = tt
  All-replicate (suc n) v p = (p, All-replicate n v p)

  pub All-weaken : (Q : A → Type 0) (xs : List A) → ((x : A) → P x → Q x) → All P xs → All Q xs
  All-weaken Q [] f all = tt
  All-weaken Q (x ∷ xs) f (p, all) = (f x p, All-weaken Q xs f all)

  pub All-drop : (k : ℕ) (xs : List A) → All P xs → All P (drop k xs)
  All-drop zero xs all = all
  All-drop (suc k) [] all = tt
  All-drop (suc k) (x ∷ xs) (p, all) = All-drop k xs all
