-- ===== src/Io/Stage/Hang.antt =====
-- The consumer thread that waits in `wait_for_data`: what wakes it, and what does not.
use low_latency_market_data.Common.{
  ℕ, ◌+◌, ◌^◌, ◌≡◌, ◌≢◌, ◌≤◌, ◌<◌, Bool, true, false, arith, refl, ap,
}
use low_latency_market_data.Common.Words.{add64}
use low_latency_market_data.Concurrency.RingBuffer.{idle}
use low_latency_market_data.Io.Stage.{
  Loop, looking, blocked, exited, Stage, Upstream, produce, finish, notify, Downstream, go_on,
  take_item, end_drain, see_done, see_running, look, look_some, look_none, snapshot, recheck,
  recheck_some, recheck_none, wake_up, Reached, notify_waiters,
}
use low_latency_market_data.Io.Stage.Invariant.{Holds, one_if, unannounced}
use low_latency_market_data.Io.Stage.Popping.{Waits-at}
use low_latency_market_data.Io.Stage.Exit.{Reached-Holds}

module _ {A : Type 0} (cap : ℕ) (item : ℕ → A) where
  -- With fewer than 2^64 - 1 pushes, a consumer thread that sleeps in `wait_for_data` with nothing to
  -- wake it has no item to fetch: the queue is empty, or it holds the one item of a push that has yet
  -- to announce it.
  pub no_item_missed :
      (blank : A)
      → 0 < cap
      → (s : Stage A) (g : ℕ) → Reached cap item blank s
      → s.ring.calls + 1 < 2 ^ 64
      → s.loop ≡ blocked g
      → s.ring.wake_generation ≡ g
      → s.ring.tail ≤ s.ring.head + unannounced s.ring.producer
  no_item_missed blank pos s g reached fits e same =
      let h = Reached-Holds cap item blank pos s reached fits in
      let w = Waits-at cap item s (omega arith) h (blocked g) e in
      let b = h.bumps in let o = h.sound.order in by_flag h s.notified refl w b
    where
      by_flag :
          Holds cap item s
          → (n : Bool) → s.notified ≡ n
          → g ≤ s.ring.head + one_if s.notified
          → s.ring.wake_generation + unannounced s.ring.producer ≡ s.ring.tail + one_if s.notified
          → s.ring.tail ≤ s.ring.head + unannounced s.ring.producer
      by_flag h true n w b =
          let idle_now = ap unannounced (h.quiet (h.told n)) in let one = ap one_if n in omega arith
      by_flag h false n w b = let zero_told = ap one_if n in omega arith

  -- Steps of the two threads, in any order.
  pub data Steps : Stage A → Stage A → Type 0 where
    here : (s : Stage A) → Steps s s
    up : (s s' s'' : Stage A) → Upstream cap item s s' → Steps s' s'' → Steps s s''
    down : (s s' s'' : Stage A) → Downstream cap item s s' → Steps s' s'' → Steps s s''

  -- Neither thread has a step.
  pub record IsStuck (s : Stage A) : Type 0 where
    pub no_upstream : (s' : Stage A) → Upstream cap item s s' → ⊥
    pub no_downstream : (s' : Stage A) → Downstream cap item s s' → ⊥

  generation : Loop → ℕ
  generation (blocked g) = g
  generation l = 0

  -- Asleep after the flag and the notification.
  abbrev asleep : Stage A → Stage A
  asleep s = record {
    ring = notify_waiters s.ring;
    done = true;
    notified = true;
    loop = blocked (add64 s.ring.wake_generation 1);
  }

  asleep-IsStuck : (s : Stage A) → IsStuck (asleep s)
  unfolding generation
  asleep-IsStuck s = record { no_upstream = no_up; no_downstream = no_down }
    where
      no_up : (s' : Stage A) → Upstream cap item (asleep s) s' → ⊥
      no_up s' (produce _ r running p) = absurd (cc)
      no_up s' (finish _ running e) = absurd (cc)
      no_up s' (notify _ over first) = absurd (cc)

      no_down : (s' : Stage A) → Downstream cap item (asleep s) s' → ⊥
      no_down s' (go_on _ r p i q) = absurd (cc)
      no_down s' (take_item _ r p i q) = absurd (cc)
      no_down s' (end_drain _ r p i q) = absurd (cc)
      no_down s' (see_done _ e d) = absurd (cc)
      no_down s' (see_running _ e d) = absurd (cc)
      no_down s' (look _ e) = absurd (cc)
      no_down s' (look_some _ t e x) = absurd (cc)
      no_down s' (look_none _ t e x) = absurd (cc)
      no_down s' (snapshot _ e) = absurd (cc)
      no_down s' (recheck _ g e) = absurd (cc)
      no_down s' (recheck_some _ g t e x) = absurd (cc)
      no_down s' (recheck_none _ g t e x) = absurd (cc)
      no_down s' (wake_up _ g e x) = x (ap generation e)

  -- The producer thread may set its flag and notify between the consumer's check of the flag and its
  -- snapshot of `wake_generation_` in `wait_for_data`. Then, on an empty queue, the consumer thread
  -- sleeps for good: from every state in which the consumer has seen no flag and comes to
  -- `wait_for_data` with an empty queue, while the producer is between two calls, the two threads can
  -- come to a state in which the producer is done, the consumer has not left its loop, and neither
  -- has a step.
  pub wake_up_missed :
      (s : Stage A)
      → s.loop ≡ looking
      → s.done ≡ false
      → s.notified ≡ false
      → s.ring.producer ≡ idle
      → s.ring.tail ≡ s.ring.head
      → (s' : Stage A) × Steps s s' × (s'.done ≡ true) × (s'.loop ≢ exited) × IsStuck s'
  wake_up_missed s e running first between empty = (
    asleep s,
    up _ _ _ (finish s running between) (
        up _ _ _ (notify _ refl first) (
          down _ _ _ (look _ e) (
            down _ _ _ (look_none _ s.ring.tail refl empty) (
              down _ _ _ (snapshot _ refl) (
                down _ _ _ (recheck _ _ refl)
                  (down _ _ _ (recheck_none _ _ s.ring.tail refl empty) (here _))))))),
    refl,
    (λ e. absurd (cc)),
    asleep-IsStuck s,
  )
