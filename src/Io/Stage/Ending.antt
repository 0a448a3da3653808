-- ===== src/Io/Stage/Ending.antt =====
-- Behind the flag the consumer thread comes to its end.
use low_latency_market_data.Common.{
  ℕ, zero, suc, ◌+◌, ◌-◌, ◌*◌, ◌^◌, ◌≡◌, ◌≤◌, ◌<◌, Bool, true, false, none, some, Option, ◌⊎◌, inl,
  inr, ◌==◌, ==_iff, Bool-cases, arith, refl, ap, ◌∙◌,
}
use low_latency_market_data.Concurrency.RingBuffer.{
  Consumer, resting, guessed, announcing, claiming, retracting, reading, leaving, Ring, Pop, guess,
  find_empty, find_item, announce, claim, miss, retract, read, leave,
}
use low_latency_market_data.Io.Stage.{
  Loop, draining, checking, last_drain, looking, looked, snapshotting, rechecking, rechecked,
  blocked, exited, Stage, in_drain, with_work, after_drain, returned, Downstream, go_on, take_item,
  end_drain, see_done, see_running, look, look_some, look_none, snapshot, recheck, recheck_some,
  recheck_none, wake_up, Reached,
}
use low_latency_market_data.Io.Stage.Invariant.{Holds}
use low_latency_market_data.Io.Stage.Popping.{Downstream-calls, Downstream-Holds}
use low_latency_market_data.Io.Stage.Rank.{turns_left, accesses_left, rank, Downstream-rank}
use low_latency_market_data.Io.Stage.Exit.{Reached-Holds}

-- In `wait_for_data`.
abbrev pub in_wait : Loop → Bool
in_wait (draining did_work) = false
in_wait checking = false
in_wait (last_drain did_work) = false
in_wait exited = false
in_wait _ = true

turns_left-le : (l : Loop) → turns_left l ≤ 17
turns_left-le (draining true) = omega arith
turns_left-le (draining false) = omega arith
turns_left-le checking = omega arith
turns_left-le (last_drain true) = omega arith
turns_left-le (last_drain false) = omega arith
turns_left-le looking = omega arith
turns_left-le (looked t) = omega arith
turns_left-le snapshotting = omega arith
turns_left-le (rechecking g) = omega arith
turns_left-le (rechecked g t) = omega arith
turns_left-le (blocked g) = omega arith
turns_left-le exited = omega arith

accesses_left-le : {A : Type 0} (c : Consumer A) → accesses_left c ≤ 18
accesses_left-le resting = omega arith
accesses_left-le (guessed h) = omega arith
accesses_left-le (announcing h) = omega arith
accesses_left-le (claiming h) = omega arith
accesses_left-le (retracting h) = omega arith
accesses_left-le (reading h) = omega arith
accesses_left-le (leaving h v) = omega arith

with_work-in_wait : (l : Loop) → in_drain l ≡ true → in_wait (with_work l) ≡ false
with_work-in_wait (draining d) i = refl
with_work-in_wait (last_drain d) i = refl
with_work-in_wait _ i = absurd (cc)

after_drain-in_wait : (l : Loop) → in_drain l ≡ true → in_wait (after_drain l) ≡ false
after_drain-in_wait (draining true) i = refl
after_drain-in_wait (draining false) i = refl
after_drain-in_wait (last_drain true) i = refl
after_drain-in_wait (last_drain false) i = refl
after_drain-in_wait _ i = absurd (cc)

module _ {A : Type 0} (cap : ℕ) (item : ℕ → A) where
  -- A number of steps of the consumer thread.
  pub data Run : ℕ → Stage A → Stage A → Type 0 where
    stay : (s : Stage A) → Run 0 s s
    go : (k : ℕ) (s s' s'' : Stage A) → Downstream cap item s s' → Run k s' s'' → Run (suc k) s s''

  Downstream-done : (s s' : Stage A) → Downstream cap item s s' → s'.done ≡ s.done
  Downstream-done s s' (go_on _ r p i q) = refl
  Downstream-done s s' (take_item _ r p i q) = refl
  Downstream-done s s' (end_drain _ r p i q) = refl
  Downstream-done s s' (see_done _ e d) = refl
  Downstream-done s s' (see_running _ e d) = refl
  Downstream-done s s' (look _ e) = refl
  Downstream-done s s' (look_some _ t e x) = refl
  Downstream-done s s' (look_none _ t e x) = refl
  Downstream-done s s' (snapshot _ e) = refl
  Downstream-done s s' (recheck _ g e) = refl
  Downstream-done s s' (recheck_some _ g t e x) = refl
  Downstream-done s s' (recheck_none _ g t e x) = refl
  Downstream-done s s' (wake_up _ g e x) = refl

  Run-rank :
      (k : ℕ) (s s' : Stage A)
      → s.ring.calls < 2 ^ 64
      → Holds cap item s
      → s.done ≡ true
      → Run k s s'
      → k + rank s' ≤ rank s
  Run-rank _ s s' fits h d (stay _) = omega arith
  Run-rank _ s s' fits h d (go k _ next _ step run) =
      let c = Downstream-calls cap item s next step in
      let lt = Downstream-rank cap item s next fits h d step in
      let rest =
        Run-rank k next s' (omega arith) (Downstream-Holds cap item s next fits h step)
          (Downstream-done s next step ∙ d) run in
      omega arith

  -- `try_pop` never waits.
  Pop-goes_on : (r : Ring A) (c : Consumer A) → r.consumer ≡ c → (r' : Ring A) × Pop cap item r r'
  Pop-goes_on r resting e = (_, guess r e)
  Pop-goes_on r (guessed h) e = elim (Bool-cases (r.tail == h)) [
    | inl same ↦ (_, find_empty r h e ((==_iff r.tail h).0 same))
    | inr other ↦ (_, find_item r h e (λ q. absurd (ground (arith, ==_iff r.tail h))))
  ]
  Pop-goes_on r (announcing h) e = (_, announce r h e)
  Pop-goes_on r (claiming h) e = elim (Bool-cases (r.head == h)) [
    | inl same ↦ (_, claim r h e ((==_iff r.head h).0 same))
    | inr other ↦ (_, miss r h e (λ q. absurd (ground (arith, ==_iff r.head h))))
  ]
  Pop-goes_on r (retracting h) e = (_, retract r h e)
  Pop-goes_on r (reading h) e = (_, read r h e)
  Pop-goes_on r (leaving h v) e = (_, leave r h v e)

  abbrev Next : Stage A → Type 0
  Next s = (s' : Stage A) × Downstream cap item s s' × (in_wait s'.loop ≡ false)

  drain_next :
      (s : Stage A)
      → in_drain s.loop ≡ true
      → in_wait s.loop ≡ false
      → (r : Ring A) (p : Pop cap item s.ring r) (o : Option Bool) → returned cap item p ≡ o
      → Next s
  drain_next s i w r p none q = (_, go_on s r p i q, w)
  drain_next s i w r p (some true) q = (_, take_item s r p i q, with_work-in_wait s.loop i)
  drain_next s i w r p (some false) q = (_, end_drain s r p i q, after_drain-in_wait s.loop i)

  drains : (s : Stage A) → in_drain s.loop ≡ true → in_wait s.loop ≡ false → Next s
  drains s i w =
      let (r, p) = Pop-goes_on s.ring s.ring.consumer refl in
      drain_next s i w r p (returned cap item p) refl

  -- Behind the flag and outside `wait_for_data` the consumer thread goes on, and stays outside.
  next :
      (s : Stage A) (l : Loop)
      → s.loop ≡ l
      → s.done ≡ true
      → in_wait l ≡ false
      → (s.loop ≡ exited) ⊎ Next s
  next s (draining did_work) e d w = inr (drains s (ap in_drain e) (ap in_wait e))
  next s checking e d w = inr (_, see_done s e d, refl)
  next s (last_drain did_work) e d w = inr (drains s (ap in_drain e) (ap in_wait e))
  next s exited e d w = inl e
  next s _ e d w = absurd (cc)

  to_end :
      (n : ℕ) (s : Stage A)
      → rank s < n
      → s.ring.calls < 2 ^ 64
      → Holds cap item s
      → s.done ≡ true
      → in_wait s.loop ≡ false
      → (k : ℕ) × (s' : Stage A) × Run k s s' × (s'.loop ≡ exited)
  to_end zero s lt fits h d w = absurd (omega arith)
  to_end (suc n) s lt fits h d w = elim (next s s.loop refl d w) [
    | inl over ↦ (0, s, stay s, over)
    | inr (s₁, step, w₁) ↦
        let c = Downstream-calls cap item s s₁ step in
        let less = Downstream-rank cap item s s₁ fits h d step in
        let (k, s', run, over) =
          to_end n s₁ (omega arith) (omega arith) (Downstream-Holds cap item s s₁ fits h step)
            (Downstream-done s s₁ step ∙ d) w₁ in
        (suc k, s', go k s s₁ s' step run, over)
  ]

  module _ (blank : A) (pos : 0 < cap) where
    -- With fewer than 2^64 - 1 pushes, a consumer thread outside `wait_for_data` comes to the end of
    -- its loop once the producer thread has set its flag.
    pub comes_to_exit :
        (s : Stage A)
        → Reached cap item blank s
        → s.ring.calls + 1 < 2 ^ 64
        → s.done ≡ true
        → in_wait s.loop ≡ false
        → (k : ℕ) × (s' : Stage A) × Run k s s' × (s'.loop ≡ exited)
    comes_to_exit s reached fits =
        to_end (suc (rank s)) s (omega arith) (omega arith)
          (Reached-Holds cap item blank pos s reached fits)

    -- With fewer than 2^64 - 1 pushes, once the producer thread has set its flag, the consumer thread
    -- makes at most 32 accesses to shared memory for each queued item and 35 others, wherever it is.
    pub Run-bounded :
        (k : ℕ) (s s' : Stage A)
        → Reached cap item blank s
        → s.ring.calls + 1 < 2 ^ 64
        → s.done ≡ true
        → Run k s s'
        → k ≤ 32 * (s.ring.tail - s.ring.head) + 35
    Run-bounded k s s' reached fits d run =
        let h = Reached-Holds cap item blank pos s reached fits in
        let le = Run-rank k s s' (omega arith) h d run in
        let t = turns_left-le s.loop in let a = accesses_left-le s.ring.consumer in omega arith
