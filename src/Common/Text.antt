-- ===== src/Common/Text.antt =====
-- Text as a list of its bytes, and the decimal numbers that a std::ostream and std::to_string write.
pub mod Decimal
use Prim.Native.Nat.{ℕ, zero, suc, ◌+◌, ◌/◌, ◌%◌, ◌<◌}
use Prim.Native.Char.{code}
use Prim.Native.String.{String}
use mathlib.Core.Logic.{dite}
use mathlib.Core.WellFounded.{Acc, WellFounded}
use native.Mathlib.Decide.{dec_lt}
use mathlib.Core.List.{List, [], ◌∷◌}
use native.Mathlib.Omega.{arith}
use low_latency_market_data.Common.Tests.{if◌then◌else◌, ◌==◌}
use low_latency_market_data.Common.Ints.{ℤ}

abbrev pub Text : Type 0
Text = List ℕ

abbrev pub codes : String → Text
codes String.[] = []
codes (String.◌∷◌ c s) = code c ∷ codes s

acc_below : (k n : ℕ) → n < k → Acc ◌<◌ n
acc_below zero n h = absurd (omega arith)
acc_below (suc k) n h = Acc.intro n λ m lt. acc_below k m (omega arith)

lt_wf : WellFounded ◌<◌
unfolding acc_below
lt_wf = record { apply = λ n. acc_below (suc n) n (omega arith) }

pub tenth_lt : {n : ℕ} → 0 < n → n / 10 < n
tenth_lt h = omega arith

-- The digits of a number in front of `out`, the last one first.
digits_loop : (n : ℕ) → Acc ◌<◌ n → Text → Text
digits_loop n (Acc.intro _ smaller) out =
    dite (dec_lt 0 n)
      (λ h. digits_loop (n / 10) (smaller (n / 10) (tenth_lt h)) ((b'0' + n % 10) ∷ out)) (λ _. out)

digits : ℕ → Text → Text
digits n = digits_loop n (lt_wf.apply n)

unfoldable pub decimal : ℕ → Text
unfolding digits digits_loop lt_wf
decimal n = if n == 0 then b'0' ∷ [] else digits n []

unfoldable pub signed_decimal : ℤ → Text
unfolding decimal
signed_decimal (ℤ.pos n) = decimal n
signed_decimal (ℤ.negsuc n) = b'-' ∷ decimal (suc n)
