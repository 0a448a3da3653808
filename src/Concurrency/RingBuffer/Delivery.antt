-- ===== src/Concurrency/RingBuffer/Delivery.antt =====
-- The states that the two threads reach: what was delivered, dropped and queued in them.
use mathlib.Core.Path.{subst}
use low_latency_market_data.Common.{
  ℕ, ◌+◌, ◌-◌, ◌%◌, ◌^◌, ◌≡◌, ◌≢◌, ◌≤◌, ◌<◌, ==_iff, length, arith, refl, ap,
}
use low_latency_market_data.Concurrency.RingBuffer.{
  idle, writing, Consumer, resting, guessed, announcing, claiming, retracting, reading, leaving,
  Ring, Push, call, load_tail, load_head, full, room, evict, lose, count_drop, spin, enter,
  write_value, store_tail, wake, Pop, guess, find_empty, find_item, announce, claim, miss, retract,
  read, leave, Reachable, start, push, pop,
}
use low_latency_market_data.Concurrency.RingBuffer.Invariant.{
  IsSound, Knows, initial-IsSound, InOrder, claimed, held, uncounted,
}
use low_latency_market_data.Concurrency.RingBuffer.Pushes.{Push-IsSound}
use low_latency_market_data.Concurrency.RingBuffer.Monotone.{InOrder-bound}
use low_latency_market_data.Concurrency.RingBuffer.Pops.{Pop-IsSound, seen}

module _ {A : Type 0} (cap : ℕ) (item : ℕ → A) where
  pub Push-calls : (s s' : Ring A) → Push cap item s s' → s.calls ≤ s'.calls
  Push-calls s s' (call _ e) = omega arith
  Push-calls s s' (load_tail _ e) = omega arith
  Push-calls s s' (load_head _ t e) = omega arith
  Push-calls s s' (full _ t h e le) = omega arith
  Push-calls s s' (room _ t h e lt) = omega arith
  Push-calls s s' (evict _ t h e hit) = omega arith
  Push-calls s s' (lose _ t h e lost) = omega arith
  Push-calls s s' (count_drop _ t e) = omega arith
  Push-calls s s' (spin _ t e busy) = omega arith
  Push-calls s s' (enter _ t e free) = omega arith
  Push-calls s s' (write_value _ t e) = omega arith
  Push-calls s s' (store_tail _ t e) = omega arith
  Push-calls s s' (wake _ e) = omega arith

  Pop-calls : (s s' : Ring A) → Pop cap item s s' → s'.calls ≡ s.calls
  Pop-calls s s' (guess _ e) = refl
  Pop-calls s s' (find_empty _ h e none_left) = refl
  Pop-calls s s' (find_item _ h e some_left) = refl
  Pop-calls s s' (announce _ h e) = refl
  Pop-calls s s' (claim _ h e hit) = refl
  Pop-calls s s' (miss _ h e lost) = refl
  Pop-calls s s' (retract _ h e) = refl
  Pop-calls s s' (read _ h e) = refl
  Pop-calls s s' (leave _ h v e) = refl

  module _ (blank : A) (pos : 0 < cap) where
    -- The invariant holds in every state that the threads reach with fewer than 2^64 pushes.
    pub Reachable-IsSound :
        (s : Ring A) → Reachable cap item blank s → s.calls < 2 ^ 64 → IsSound cap item s
    Reachable-IsSound s start fits = initial-IsSound cap item blank
    Reachable-IsSound s (push before _ r step) fits =
        let le = Push-calls before s step in
        Push-IsSound cap item before s pos fits (Reachable-IsSound before r (omega arith)) step
    Reachable-IsSound s (pop before _ r step) fits =
        let same = Pop-calls before s step in
        Pop-IsSound cap item before s (omega arith) (Reachable-IsSound before r (omega arith)) step

    module _ (s : Ring A) (reached : Reachable cap item blank s) (fits : s.calls < 2 ^ 64) where
      sound : IsSound cap item s
      sound = Reachable-IsSound s reached fits

      below_head : (c : Consumer A) → s.consumer ≡ c → claimed cap item c s.head ≤ s.head
      below_head resting e = omega arith
      below_head (guessed h) e = omega arith
      below_head (announcing h) e = omega arith
      below_head (claiming h) e = omega arith
      below_head (retracting h) e = omega arith
      below_head (reading h) e =
          let (below, active, value) = seen cap item s sound (reading h) e in omega arith
      below_head (leaving h v) e =
          let (below, value) = seen cap item s sound (leaving h v) e in omega arith

      -- With fewer than 2^64 pushes, `try_pop` returns the pushed items in the order of their pushes
      -- and none twice, and what it returns for a transition of `head_` is the item pushed there.
      pub delivered-InOrder : InOrder cap item s.head s.delivered
      delivered-InOrder =
          InOrder-bound cap item (claimed cap item s.consumer s.head) s.head s.delivered
            (below_head s.consumer refl) sound.in_order

      -- With fewer than 2^64 pushes, the queue never holds more than the capacity, and each of its
      -- slots holds the item that was pushed there.
      pub queue_lem :
          (s.head ≤ s.tail)
          × (s.tail ≤ s.head + cap)
          × ((k : ℕ) → s.head ≤ k → k < s.tail → s.value (k % cap) ≡ item k)
      queue_lem = (sound.order, sound.lap, sound.queued)

      -- With fewer than 2^64 pushes, `push` never writes the slot that `try_pop` is reading.
      pub no_torn_read :
          (t h : ℕ) → s.producer ≡ writing t → s.consumer ≡ reading h → t % cap ≢ h % cap
      no_torn_read t h p c same =
          let hit = (==_iff (t % cap) (h % cap)).1 same in
          let off = sound.apart t h p c in ground arith

      -- With fewer than 2^64 pushes, when both threads are between calls, each push was delivered, or
      -- is counted as dropped, or is still queued.
      pub nothing_lost :
          s.producer ≡ idle
          → s.consumer ≡ resting
          → length s.delivered + s.dropped + (s.tail - s.head) ≡ s.calls
      nothing_lost p c =
          let k : s.calls ≡ s.tail =
            subst (λ q. Knows cap item q s.tail s.head s.calls s.value) p sound.knows in
          let order = sound.order in
          let n = sound.count in
          let h : held cap item s.consumer ≡ 0 = ap (held cap item) c in
          let u : uncounted cap item s.producer ≡ 0 = ap (uncounted cap item) p in omega arith
