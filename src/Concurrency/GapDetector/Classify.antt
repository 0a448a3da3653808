-- ===== src/Concurrency/GapDetector/Classify.antt =====
-- What the gap detector says of one number.
use low_latency_market_data.Common.{
  ℕ, ◌+◌, ◌≡◌, ◌<◌, ◌≤◌, ◌^◌, ◌%◌, inl, inr, true, ◌==◌, ltb, Bool-cases, arith,
}
use low_latency_market_data.Concurrency.GapDetector.{
  GapDetector, SequenceObservation, in_order, gap, duplicate, stale, observe, observe_next,
}

-- The three ways an observation ends, by where the number lies.
pub data Observed (d : GapDetector) (n : ℕ) : SequenceObservation → GapDetector → Type 0 where
  next : n ≡ d.last + 1 → Observed d n in_order (record d { last = n })
  old : n ≤ d.last → Observed d n duplicate d
  skipped :
      d.last + 1 < n
      → Observed d n gap
          (record d { gaps_total = (d.gaps_total + 1) % 2 ^ 64; state = stale; last = n })

-- Below the largest sequence number, a number is in order exactly if it follows the last one, a
-- duplicate if it is not above the last one, and a gap otherwise.
pub observe_lem :
    (d : GapDetector) (n : ℕ)
    → d.has_last ≡ true
    → d.last + 1 < 2 ^ 64
    → Observed d n (observe d n).0 (observe d n).1
unfolding observe observe_next
observe_lem d n has fits = elim (Bool-cases (n == (d.last + 1) % 2 ^ 64)) [
  | inl hit ↦ rw (has, hit) (next (ground arith))
  | inr miss ↦ elim (Bool-cases (ltb n ((d.last + 1) % 2 ^ 64))) [
    | inl below ↦ rw (has, miss, below) (old (ground arith))
    | inr above ↦ rw (has, miss, above) (skipped (ground arith))
  ]
]
