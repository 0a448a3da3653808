-- ===== src/Io/Stage/Pushing.antt =====
-- The producer thread keeps what holds.
use mathlib.Core.Path.{subst}
use low_latency_market_data.Common.{
  ℕ, ◌+◌, ◌^◌, ◌≡◌, ◌≤◌, ◌<◌, Bool, true, false, arith, refl, sym, ap, ◌∙◌,
}
use low_latency_market_data.Concurrency.RingBuffer.{
  Producer, idle, called, knows_tail, knows_head, evicting, evicted, waiting, writing, storing,
  waking, Ring, Push, call, load_tail, load_head, full, room, evict, lose, count_drop, spin, enter,
  write_value, store_tail, wake,
}
use low_latency_market_data.Concurrency.RingBuffer.Invariant.{IsSound}
use low_latency_market_data.Concurrency.RingBuffer.Moves.{known}
use low_latency_market_data.Concurrency.RingBuffer.Monotone.{Knows-calls}
use low_latency_market_data.Concurrency.RingBuffer.Pushes.{Push-IsSound}
use low_latency_market_data.Concurrency.RingBuffer.Delivery.{Push-calls}
use low_latency_market_data.Io.Stage.{Stage, Upstream, produce, finish, notify}
use low_latency_market_data.Io.Stage.Invariant.{
  Holds, one_if, unannounced, Waits, Waits-push, Waits-finish, Waits-notify,
}

module _ {A : Type 0} (cap : ℕ) (item : ℕ → A) where
  -- What the consumer thread sees of an access of `push`.
  record Advances (s s' : Ring A) : Type 0 where
    tail : s.tail ≤ s'.tail
    head : s.head ≤ s'.head
    consumer : s'.consumer ≡ s.consumer
    bumps :
        (n : ℕ)
        → n ≤ 1
        → s.wake_generation + unannounced s.producer ≡ s.tail + n
        → s'.wake_generation + unannounced s'.producer ≡ s'.tail + n

  -- An access that neither queues an item nor wakes anyone.
  unmoved :
      (s s' : Ring A) (p p' : Producer)
      → s.producer ≡ p
      → s'.producer ≡ p'
      → unannounced p ≡ 0
      → unannounced p' ≡ 0
      → s'.tail ≡ s.tail
      → s.head ≤ s'.head
      → s'.consumer ≡ s.consumer
      → s'.wake_generation ≡ s.wake_generation
      → Advances s s'
  unmoved s s' p p' e e' zero_p zero_p' t h c g = record {
    tail = omega arith;
    head = h;
    consumer = c;
    bumps = λ n lt b. let u = ap unannounced e in let u' = ap unannounced e' in omega arith;
  }

  Push-Advances :
      (s s' : Ring A)
      → 0 < cap
      → s'.calls + 1 < 2 ^ 64
      → IsSound cap item s
      → Push cap item s s'
      → Advances s s'
  Push-Advances s s' pos fits sound (call _ e) =
      unmoved s s' idle called e refl refl refl refl (omega arith) refl refl
  Push-Advances s s' pos fits sound (load_tail _ e) =
      unmoved s s' called (knows_tail s.tail) e refl refl refl refl (omega arith) refl refl
  Push-Advances s s' pos fits sound (load_head _ t e) =
      unmoved s s' (knows_tail t) (knows_head t s.head) e refl refl refl refl (omega arith) refl
        refl
  Push-Advances s s' pos fits sound (full _ t h e le) =
      unmoved s s' (knows_head t h) (evicting t h) e refl refl refl refl (omega arith) refl refl
  Push-Advances s s' pos fits sound (room _ t h e lt) =
      unmoved s s' (knows_head t h) (waiting t) e refl refl refl refl (omega arith) refl refl
  Push-Advances s s' pos fits sound (evict _ t h e hit) =
      let (kt, kc, kh, kl) = known cap item s sound (evicting t h) e in
      unmoved s s' (evicting t h) (evicted t) e refl refl refl refl (omega arith) refl refl
  Push-Advances s s' pos fits sound (lose _ t h e miss) =
      unmoved s s' (evicting t h) (waiting t) e refl refl refl refl (omega arith) refl refl
  Push-Advances s s' pos fits sound (count_drop _ t e) =
      unmoved s s' (evicted t) (waiting t) e refl refl refl refl (omega arith) refl refl
  Push-Advances s s' pos fits sound (spin _ t e busy) = record {
    tail = omega arith;
    head = omega arith;
    consumer = refl;
    bumps = λ n lt b. b;
  }
  Push-Advances s s' pos fits sound (enter _ t e free) =
      unmoved s s' (waiting t) (writing t) e refl refl refl refl (omega arith) refl refl
  Push-Advances s s' pos fits sound (write_value _ t e) =
      unmoved s s' (writing t) (storing t) e refl refl refl refl (omega arith) refl refl
  Push-Advances s s' pos fits sound (store_tail _ t e) =
      let (kt, kc, kl, kv) = known cap item s sound (storing t) e in
      let u = ap unannounced e in
      record {
        tail = omega arith;
        head = omega arith;
        consumer = refl;
        bumps = λ n lt b. omega arith;
      }
  Push-Advances s s' pos fits sound (wake _ e) =
      let k = known cap item s sound waking e in
      let u = ap unannounced e in
      record {
        tail = omega arith;
        head = omega arith;
        consumer = refl;
        bumps = λ n lt b. omega arith;
      }

  one_if-le : (b : Bool) → one_if b ≤ 1
  one_if-le true = omega arith
  one_if-le false = omega arith

  pub Upstream-calls : (s s' : Stage A) → Upstream cap item s s' → s.ring.calls ≤ s'.ring.calls
  Upstream-calls s s' (produce _ r running p) = Push-calls cap item s.ring r p
  Upstream-calls s s' (finish _ running e) = omega arith
  Upstream-calls s s' (notify _ over first) = omega arith

  pub Upstream-Holds :
      (s s' : Stage A)
      → 0 < cap
      → s'.ring.calls + 1 < 2 ^ 64
      → Holds cap item s
      → Upstream cap item s s'
      → Holds cap item s'
  Upstream-Holds s s' pos fits h (produce _ r running p) =
      let a = Push-Advances s.ring r pos fits h.sound p in
      record {
        sound = Push-IsSound cap item s.ring r pos (omega arith) h.sound p;
        bumps = a.bumps (one_if s.notified) (one_if-le s.notified) h.bumps;
        told = h.told;
        quiet = λ e. absurd (cc);
        between = λ e. a.consumer ∙ h.between e;
        waits =
            subst (λ c. Waits s.loop r.tail r.head s.notified s.done c) (sym a.consumer)
              (Waits-push s.loop s.ring.tail s.ring.head r.tail r.head s.notified s.done
                s.ring.consumer running a.tail a.head h.waits);
      }
  Upstream-Holds s s' pos fits h (finish _ running e) = record {
    sound = h.sound;
    bumps = h.bumps;
    told = λ e. refl;
    quiet = λ d. e;
    between = h.between;
    waits = Waits-finish s.loop s.ring.tail s.ring.head s.notified s.ring.consumer (
        subst (λ d. Waits s.loop s.ring.tail s.ring.head s.notified d s.ring.consumer) running
          h.waits);
  }
  Upstream-Holds s s' pos fits h (notify _ over first) =
      let i = h.sound in
      let le =
        Knows-calls cap item s.ring.producer s.ring.tail s.ring.head s.ring.calls s.ring.value
          i.knows in
      let b = h.bumps in
      let n = ap one_if first in
      let q = ap unannounced (h.quiet over) in
      record {
        sound = record {
          order = i.order;
          lap = i.lap;
          queued = i.queued;
          knows = i.knows;
          sees = i.sees;
          apart = i.apart;
          in_order = i.in_order;
          count = i.count;
        };
        bumps = omega arith;
        told = λ e. over;
        quiet = h.quiet;
        between = h.between;
        waits = Waits-notify s.loop s.ring.tail s.ring.head s.done s.ring.consumer (
            subst (λ x. Waits s.loop s.ring.tail s.ring.head x s.done s.ring.consumer) first
              h.waits);
      }
