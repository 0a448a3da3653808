-- ===== src/Concurrency/RingBuffer/Slots.antt =====
-- The slots of numbers that are less than a lap apart.
use native.Mathlib.Nat.{div-add-mod, lt_of_mul-lt-mul_left, mul-le-mul_left, mul-suc}
use low_latency_market_data.Common.{
  ℕ, suc, ◌+◌, ◌*◌, ◌/◌, ◌%◌, ◌<◌, ◌≤◌, ◌≡◌, ◌≢◌, arith, ◌==◌, false,
}

pub lap_apart : (cap a b : ℕ) → a < b → b < a + cap → a % cap ≢ b % cap
lap_apart cap a b lo hi e =
    let da = div-add-mod a cap in
    let db = div-add-mod b cap in
    let below : cap * (a / cap) < cap * (b / cap) = omega arith in
    let next : cap * suc (a / cap) ≤ cap * (b / cap) =
      mul-le-mul_left cap (lt_of_mul-lt-mul_left cap below) in
    omega (arith, mul-suc cap (a / cap))

pub other_slot : (cap a b : ℕ) → a < b → b < a + cap → ((b % cap) == (a % cap)) ≡ false
other_slot cap a b lo hi = ground (arith, lap_apart cap a b lo hi)
