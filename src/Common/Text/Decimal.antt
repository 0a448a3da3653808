-- ===== src/Common/Text/Decimal.antt =====
-- A decimal number shows the number, and only digits.
use Prim.Native.Nat.{ℕ, suc, ◌+◌, ◌-◌, ◌*◌, ◌/◌, ◌%◌, ◌≤◌, ◌<◌}
use mathlib.Core.Path.{◌≡◌, sym, ap, ◌∙◌}
use mathlib.Core.Logic.{◌≢◌, ite, dite}
use mathlib.Core.List.{[], ◌∷◌}
use mathlib.Core.WellFounded
use mathlib.Core.WellFounded.{Acc, Acc-prop}
use native.Mathlib.Decide.{dec_lt}
use native.Mathlib.Omega.{arith}
use mathlib.Core.Bool.{Bool, true, false}
use low_latency_market_data.Common.Lists.{All, drop, get_or}
use low_latency_market_data.Common.Tests.{if◌then◌else◌, ◌==◌}
use low_latency_market_data.Common.Ints.{ℤ}
use low_latency_market_data.Common.Text.{
  Text, lt_wf, tenth_lt, digits_loop, digits, decimal, signed_decimal,
}

-- any two proofs of `Acc` are equal
loop_step :
    (n : ℕ) (w : Acc ◌<◌ n) (w' : Acc ◌<◌ (n / 10)) (out : Text)
    → digits_loop n w out ≡ ite (dec_lt 0 n) (digits_loop (n / 10) w' ((b'0' + n % 10) ∷ out)) out
unfolding digits_loop
loop_step n (Acc.intro _ smaller) w' out = λ i.
    dite (dec_lt 0 n)
      (λ h.
        digits_loop (n / 10) (Acc-prop (smaller (n / 10) (tenth_lt h)) w' i)
          ((b'0' + n % 10) ∷ out))
      (λ _. out)

digits_step :
    (n : ℕ) (out : Text)
    → digits n out ≡ ite (dec_lt 0 n) (digits (n / 10) ((b'0' + n % 10) ∷ out)) out
unfolding digits
digits_step n = loop_step n _ _

-- The number that digits show, after `n`.
value : Text → ℕ → ℕ
value [] n = n
value (c ∷ s) n = value s (n * 10 + (c - b'0'))

value_last : (n : ℕ) (out : Text) → value ((b'0' + n % 10) ∷ out) (n / 10) ≡ value out n
unfolding value
value_last n out = ap (λ k. value out k) (omega arith)

value-digits : (n : ℕ) (out : Text) → value (digits n out) 0 ≡ value out n
value-digits n =
    WellFounded.induction lt_wf {C = λ m. (out : Text) → value (digits m out) 0 ≡ value out m} n
      λ m ih out. grind (arith, digits_step m out, ih (m / 10), value_last m out)

abbrev pub IsDigit : ℕ → Type 0
IsDigit c = (b'0' ≤ c) × (c ≤ b'9')

ite-IsDigit :
    {P : Type 0} (d : Dec P) (s t : Text)
    → (P → All IsDigit s)
    → All IsDigit t
    → All IsDigit (ite d s t)
ite-IsDigit (yes p) s t f g = f p
ite-IsDigit (no np) s t f g = g

digits-IsDigit : (n : ℕ) (out : Text) → All IsDigit out → All IsDigit (digits n out)
digits-IsDigit n =
    WellFounded.induction lt_wf
      {C = λ m. (out : Text) → All IsDigit out → All IsDigit (digits m out)} n
      λ m ih out all. rw (digits_step m out) (
        ite-IsDigit (dec_lt 0 m) _ out
          (λ pos. ih (m / 10) (tenth_lt pos) _ ((omega arith, omega arith), all)) all)

if-IsDigit :
    (b : Bool) (s t : Text) → All IsDigit s → All IsDigit t → All IsDigit (if b then s else t)
if-IsDigit true s t f g = f
if-IsDigit false s t f g = g

pub decimal-IsDigit : (n : ℕ) → All IsDigit (decimal n)
unfolding decimal
decimal-IsDigit n =
    if-IsDigit (n == 0) _ _ ((omega arith, omega arith), tt) (digits-IsDigit n [] tt)

decimal_value : (n : ℕ) → value (decimal n) 0 ≡ n
unfolding decimal value
decimal_value n = ground (arith, value-digits n [])

pub decimal_injective : (m n : ℕ) → decimal m ≡ decimal n → m ≡ n
decimal_injective m n e = sym (decimal_value m) ∙ ap (λ s. value s 0) e ∙ decimal_value n

minus_first : (s t : Text) → All IsDigit s → s ≢ b'-' ∷ t
minus_first [] t all e = absurd (cc)
minus_first (c ∷ s) t (digit, all) e =
    let same : c ≡ b'-' = ap (λ l. get_or l 0 c) e in absurd (omega arith)

pub signed_decimal_injective : (a b : ℤ) → signed_decimal a ≡ signed_decimal b → a ≡ b
unfolding signed_decimal
signed_decimal_injective (ℤ.pos m) (ℤ.pos n) e = ap ℤ.pos (decimal_injective m n e)
signed_decimal_injective (ℤ.negsuc m) (ℤ.negsuc n) e =
    let same : suc m ≡ suc n = decimal_injective (suc m) (suc n) (ap (drop 1) e) in
    ap ℤ.negsuc (omega arith)
signed_decimal_injective (ℤ.pos m) (ℤ.negsuc n) e =
    absurd (minus_first (decimal m) _ (decimal-IsDigit m) e)
signed_decimal_injective (ℤ.negsuc m) (ℤ.pos n) e =
    absurd (minus_first (decimal n) _ (decimal-IsDigit n) (sym e))

digits-AfterMinus : (s : Text) → All IsDigit s → All (λ c. b'-' ≤ c) s
digits-AfterMinus [] all = tt
digits-AfterMinus (c ∷ s) (digit, all) = (omega arith, digits-AfterMinus s all)

-- The characters of a number start at the minus sign.
pub signed_decimal-AfterMinus : (z : ℤ) → All (λ c. b'-' ≤ c) (signed_decimal z)
unfolding signed_decimal
signed_decimal-AfterMinus (ℤ.pos n) = digits-AfterMinus _ (decimal-IsDigit n)
signed_decimal-AfterMinus (ℤ.negsuc n) = (omega arith, digits-AfterMinus _ (decimal-IsDigit _))
