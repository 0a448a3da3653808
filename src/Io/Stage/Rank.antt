-- ===== src/Io/Stage/Rank.antt =====
-- How much the consumer thread has left to do behind the flag.
use low_latency_market_data.Common.{
  ℕ, ◌+◌, ◌-◌, ◌*◌, ◌^◌, ◌≡◌, ◌≤◌, ◌<◌, true, false, none, some, arith, ap,
}
use low_latency_market_data.Concurrency.RingBuffer.{
  Consumer, resting, guessed, announcing, claiming, retracting, reading, leaving, Ring, Pop, guess,
  find_empty, find_item, announce, claim, miss, retract, read, leave,
}
use low_latency_market_data.Concurrency.RingBuffer.Invariant.{IsSound}
use low_latency_market_data.Concurrency.RingBuffer.Pops.{seen}
use low_latency_market_data.Concurrency.RingBuffer.Monotone.{Knows-calls}
use low_latency_market_data.Io.Stage.{
  Loop, draining, checking, last_drain, looking, looked, snapshotting, rechecking, rechecked,
  blocked, exited, Stage, in_drain, with_work, after_drain, returned, Downstream, go_on, take_item,
  end_drain, see_done, see_running, look, look_some, look_none, snapshot, recheck, recheck_some,
  recheck_none, wake_up,
}
use low_latency_market_data.Io.Stage.Invariant.{Holds}

-- How many accesses are left before the loop's end, at most: those of the queued items apart.
abbrev pub turns_left : Loop → ℕ
turns_left (draining true) = 16
turns_left (draining false) = 11
turns_left checking = 6
turns_left (last_drain true) = 16
turns_left (last_drain false) = 5
turns_left looking = 17
turns_left (looked t) = 16
turns_left snapshotting = 15
turns_left (rechecking g) = 14
turns_left (rechecked g t) = 13
turns_left (blocked g) = 12
turns_left exited = 0

abbrev pub accesses_left : {A : Type 0} → Consumer A → ℕ
accesses_left resting = 5
accesses_left (guessed h) = 4
accesses_left (announcing h) = 3
accesses_left (claiming h) = 2
accesses_left (retracting h) = 1
accesses_left (reading h) = 18
accesses_left (leaving h v) = 17

abbrev pub rank : {A : Type 0} → Stage A → ℕ
rank s = 32 * (s.ring.tail - s.ring.head) + turns_left s.loop + accesses_left s.ring.consumer

with_work-turns : (l : Loop) → in_drain l ≡ true → turns_left (with_work l) < turns_left l + 12
with_work-turns (draining true) i = omega arith
with_work-turns (draining false) i = omega arith
with_work-turns (last_drain true) i = omega arith
with_work-turns (last_drain false) i = omega arith
with_work-turns _ i = absurd (cc)

after_drain-turns : (l : Loop) → in_drain l ≡ true → turns_left (after_drain l) + 5 ≤ turns_left l
after_drain-turns (draining true) i = omega arith
after_drain-turns (draining false) i = omega arith
after_drain-turns (last_drain true) i = omega arith
after_drain-turns (last_drain false) i = omega arith
after_drain-turns _ i = absurd (cc)

module _ {A : Type 0} (cap : ℕ) (item : ℕ → A) where
  -- What an access of `try_pop` leaves to be done, the items included.
  abbrev work : Ring A → ℕ
  work r = 32 * (r.tail - r.head) + accesses_left r.consumer

  go_on-work :
      (r r' : Ring A) (p : Pop cap item r r')
      → IsSound cap item r
      → r.calls < 2 ^ 64
      → returned cap item p ≡ none
      → work r' < work r
  go_on-work r r' (guess _ e) sound fits q = let a = ap accesses_left e in omega arith
  go_on-work r r' (find_empty _ h e x) sound fits q = absurd (cc)
  go_on-work r r' (find_item _ h e x) sound fits q = let a = ap accesses_left e in omega arith
  go_on-work r r' (announce _ h e) sound fits q = let a = ap accesses_left e in omega arith
  go_on-work r r' (claim _ h e x) sound fits q =
      let a = ap accesses_left e in
      let (le, lt, active) = seen cap item r sound (claiming h) e in
      let below = Knows-calls cap item r.producer r.tail r.head r.calls r.value sound.knows in
      omega arith
  go_on-work r r' (miss _ h e x) sound fits q = let a = ap accesses_left e in omega arith
  go_on-work r r' (retract _ h e) sound fits q = absurd (cc)
  go_on-work r r' (read _ h e) sound fits q = let a = ap accesses_left e in omega arith
  go_on-work r r' (leave _ h v e) sound fits q = absurd (cc)

  take_item-work :
      (r r' : Ring A) (p : Pop cap item r r')
      → returned cap item p ≡ some true
      → work r' + 12 ≡ work r
  take_item-work r r' (guess _ e) q = absurd (cc)
  take_item-work r r' (find_empty _ h e x) q = absurd (cc)
  take_item-work r r' (find_item _ h e x) q = absurd (cc)
  take_item-work r r' (announce _ h e) q = absurd (cc)
  take_item-work r r' (claim _ h e x) q = absurd (cc)
  take_item-work r r' (miss _ h e x) q = absurd (cc)
  take_item-work r r' (retract _ h e) q = absurd (cc)
  take_item-work r r' (read _ h e) q = absurd (cc)
  take_item-work r r' (leave _ h v e) q = let a = ap accesses_left e in omega arith

  end_drain-work :
      (r r' : Ring A) (p : Pop cap item r r')
      → returned cap item p ≡ some false
      → work r' < work r + 5
  end_drain-work r r' (guess _ e) q = absurd (cc)
  end_drain-work r r' (find_empty _ h e x) q = let a = ap accesses_left e in omega arith
  end_drain-work r r' (find_item _ h e x) q = absurd (cc)
  end_drain-work r r' (announce _ h e) q = absurd (cc)
  end_drain-work r r' (claim _ h e x) q = absurd (cc)
  end_drain-work r r' (miss _ h e x) q = absurd (cc)
  end_drain-work r r' (retract _ h e) q = let a = ap accesses_left e in omega arith
  end_drain-work r r' (read _ h e) q = absurd (cc)
  end_drain-work r r' (leave _ h v e) q = absurd (cc)

  turn-rank :
      (s : Stage A) (l l' : Loop)
      → s.loop ≡ l
      → turns_left l' < turns_left l
      → rank (record s { loop = l' }) < rank s
  turn-rank s l l' e lt = let t = ap turns_left e in omega arith

  -- Every access of the consumer thread behind the flag brings it nearer to its end.
  pub Downstream-rank :
      (s s' : Stage A)
      → s.ring.calls < 2 ^ 64
      → Holds cap item s
      → s.done ≡ true
      → Downstream cap item s s'
      → rank s' < rank s
  Downstream-rank s s' fits h d (go_on _ r p i q) =
      let w = go_on-work s.ring r p h.sound fits q in omega arith
  Downstream-rank s s' fits h d (take_item _ r p i q) =
      let w = take_item-work s.ring r p q in let t = with_work-turns s.loop i in omega arith
  Downstream-rank s s' fits h d (end_drain _ r p i q) =
      let w = end_drain-work s.ring r p q in let t = after_drain-turns s.loop i in omega arith
  Downstream-rank s s' fits h d (see_done _ e over) =
      turn-rank s checking (last_drain false) e (omega arith)
  Downstream-rank s s' fits h d (see_running _ e running) = absurd (cc)
  Downstream-rank s s' fits h d (look _ e) =
      turn-rank s looking (looked s.ring.tail) e (omega arith)
  Downstream-rank s s' fits h d (look_some _ t e x) =
      turn-rank s (looked t) (draining false) e (omega arith)
  Downstream-rank s s' fits h d (look_none _ t e x) =
      turn-rank s (looked t) snapshotting e (omega arith)
  Downstream-rank s s' fits h d (snapshot _ e) =
      turn-rank s snapshotting (rechecking s.ring.wake_generation) e (omega arith)
  Downstream-rank s s' fits h d (recheck _ g e) =
      turn-rank s (rechecking g) (rechecked g s.ring.tail) e (omega arith)
  Downstream-rank s s' fits h d (recheck_some _ g t e x) =
      turn-rank s (rechecked g t) (draining false) e (omega arith)
  Downstream-rank s s' fits h d (recheck_none _ g t e x) =
      turn-rank s (rechecked g t) (blocked g) e (omega arith)
  Downstream-rank s s' fits h d (wake_up _ g e x) =
      turn-rank s (blocked g) (draining false) e (omega arith)
