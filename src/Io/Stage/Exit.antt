-- ===== src/Io/Stage/Exit.antt =====
-- The consumer thread that has left its loop.
use low_latency_market_data.Common.{ℕ, ◌+◌, ◌^◌, ◌≡◌, ◌<◌, true, length, arith, ap}
use low_latency_market_data.Concurrency.RingBuffer.{idle}
use low_latency_market_data.Concurrency.RingBuffer.Invariant.{InOrder, held, uncounted, claimed}
use low_latency_market_data.Concurrency.RingBuffer.Moves.{known}
use low_latency_market_data.Io.Stage.{Stage, exited, in_drain, Reached, start, up, down}
use low_latency_market_data.Io.Stage.Invariant.{Holds, initial-Holds}
use low_latency_market_data.Io.Stage.Pushing.{Upstream-calls, Upstream-Holds}
use low_latency_market_data.Io.Stage.Popping.{Downstream-calls, Downstream-Holds, Waits-at}
use mathlib.Core.Path.{subst}

module _ {A : Type 0} (cap : ℕ) (item : ℕ → A) (blank : A) (pos : 0 < cap) where
  pub Reached-Holds :
      (s : Stage A) → Reached cap item blank s → s.ring.calls + 1 < 2 ^ 64 → Holds cap item s
  Reached-Holds s start fits = initial-Holds cap item blank
  Reached-Holds s (up before _ r step) fits =
      let le = Upstream-calls cap item before s step in
      Upstream-Holds cap item before s pos fits (Reached-Holds before r (omega arith)) step
  Reached-Holds s (down before _ r step) fits =
      let same = Downstream-calls cap item before s step in
      Downstream-Holds cap item before s (omega arith) (Reached-Holds before r (omega arith)) step

  -- With fewer than 2^64 - 1 pushes, when the consumer thread has left its loop, the producer thread
  -- is done, and every item that it pushed was either handed on, in the order of the pushes, or is
  -- counted as dropped.
  pub exit_drained :
      (s : Stage A)
      → Reached cap item blank s
      → s.ring.calls + 1 < 2 ^ 64
      → s.loop ≡ exited
      → (s.done ≡ true)
        × (length s.ring.delivered + s.ring.dropped ≡ s.ring.calls)
        × InOrder cap item s.ring.calls s.ring.delivered
  exit_drained s reached fits e =
      let h = Reached-Holds s reached fits in
      let (over, empty) = Waits-at cap item s (omega arith) h exited e in
      let k : s.ring.calls ≡ s.ring.tail = known cap item s.ring h.sound idle (h.quiet over) in
      let rest = h.between (ap in_drain e) in
      let n = h.sound.count in
      let none_held = ap (held cap item) rest in
      let none_uncounted = ap (uncounted cap item) (h.quiet over) in
      let bound = ap (λ c. claimed cap item c s.ring.head) rest in
      let same : claimed cap item s.ring.consumer s.ring.head ≡ s.ring.calls = omega arith in
      (over, omega arith, subst (λ b. InOrder cap item b s.ring.delivered) same h.sound.in_order)
