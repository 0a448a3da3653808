-- ===== src/Common/Results.antt =====
-- std::expected, and undefined behaviour as a value.
use mathlib.Core.Option.{Option, none, some}

pub data Expected (E A : Type 0) : Type 0 where
  ok : A → Expected E A
  err : E → Expected E A

-- A computation that may reach undefined behaviour (`none`): a null or end iterator that is
-- dereferenced, an index out of range, `std::unreachable()`.
infixl 5 ◌>>=◌
abbrev pub ◌>>=◌ {ℓ κ} : {A : Type ℓ} {B : Type κ} → Option A → (A → Option B) → Option B
none >>= f = none
some a >>= f = f a
