-- ===== src/Io/Stage/Popping.antt =====
-- The consumer thread keeps what holds.
use mathlib.Core.Path.{subst}
use low_latency_market_data.Common.{
  ℕ, ◌^◌, ◌≡◌, ◌<◌, Bool, true, false, some, arith, refl, sym, ap, ◌∙◌,
}
use low_latency_market_data.Concurrency.RingBuffer.{
  Consumer, resting, guessed, announcing, claiming, retracting, Ring, Pop, guess, find_empty,
  find_item, announce, claim, miss, retract, read, leave,
}
use low_latency_market_data.Concurrency.RingBuffer.Pops.{Pop-IsSound}
use low_latency_market_data.Io.Stage.{
  Loop, draining, checking, last_drain, looking, looked, snapshotting, rechecking, rechecked,
  blocked, Stage, in_drain, with_work, after_drain, returned, Downstream, go_on, take_item,
  end_drain, see_done, see_running, look, look_some, look_none, snapshot, recheck, recheck_some,
  recheck_none, wake_up,
}
use low_latency_market_data.Io.Stage.Invariant.{Holds, unannounced, Fresh, Waits}

module _ {A : Type 0} (cap : ℕ) (item : ℕ → A) where
  -- An access of `try_pop` leaves the producer's side alone.
  pub Pop-Leaves :
      (r r' : Ring A)
      → Pop cap item r r'
      → (r'.tail ≡ r.tail)
        × (r'.producer ≡ r.producer)
        × (r'.wake_generation ≡ r.wake_generation)
        × (r'.calls ≡ r.calls)
  Pop-Leaves r r' (guess _ e) = (refl, refl, refl, refl)
  Pop-Leaves r r' (find_empty _ h e x) = (refl, refl, refl, refl)
  Pop-Leaves r r' (find_item _ h e x) = (refl, refl, refl, refl)
  Pop-Leaves r r' (announce _ h e) = (refl, refl, refl, refl)
  Pop-Leaves r r' (claim _ h e x) = (refl, refl, refl, refl)
  Pop-Leaves r r' (miss _ h e x) = (refl, refl, refl, refl)
  Pop-Leaves r r' (retract _ h e) = (refl, refl, refl, refl)
  Pop-Leaves r r' (read _ h e) = (refl, refl, refl, refl)
  Pop-Leaves r r' (leave _ h v e) = (refl, refl, refl, refl)

  Fresh-at :
      (r : Ring A) (c : Consumer A) → r.consumer ≡ c → Fresh r.consumer r.head → Fresh c r.head
  Fresh-at r c e f = subst (λ x. Fresh x r.head) e f

  Pop-Fresh :
      (r r' : Ring A) → Pop cap item r r' → Fresh r.consumer r.head → Fresh r'.consumer r'.head
  Pop-Fresh r r' (guess _ e) f = refl
  Pop-Fresh r r' (find_empty _ h e x) f = tt
  Pop-Fresh r r' (find_item _ h e x) f = Fresh-at r (guessed h) e f
  Pop-Fresh r r' (announce _ h e) f = Fresh-at r (announcing h) e f
  Pop-Fresh r r' (claim _ h e x) f = tt
  Pop-Fresh r r' (miss _ h e x) f = absurd (x (sym (Fresh-at r (claiming h) e f)))
  Pop-Fresh r r' (retract _ h e) f = tt
  Pop-Fresh r r' (read _ h e) f = tt
  Pop-Fresh r r' (leave _ h v e) f = tt

  -- A fresh `try_pop` fails only on an empty queue.
  failed_empty :
      (r r' : Ring A) (p : Pop cap item r r')
      → returned cap item p ≡ some false
      → Fresh r.consumer r.head
      → r'.head ≡ r'.tail
  failed_empty r r' (guess _ e) q f = absurd (cc)
  failed_empty r r' (find_empty _ h e x) q f = sym (Fresh-at r (guessed h) e f) ∙ sym x
  failed_empty r r' (find_item _ h e x) q f = absurd (cc)
  failed_empty r r' (announce _ h e) q f = absurd (cc)
  failed_empty r r' (claim _ h e x) q f = absurd (cc)
  failed_empty r r' (miss _ h e x) q f = absurd (cc)
  failed_empty r r' (retract _ h e) q f = absurd (Fresh-at r (retracting h) e f)
  failed_empty r r' (read _ h e) q f = absurd (cc)
  failed_empty r r' (leave _ h v e) q f = absurd (cc)

  returns_resting :
      (r r' : Ring A) (p : Pop cap item r r') (b : Bool)
      → returned cap item p ≡ some b
      → r'.consumer ≡ resting
  returns_resting r r' (guess _ e) b q = absurd (cc)
  returns_resting r r' (find_empty _ h e x) b q = refl
  returns_resting r r' (find_item _ h e x) b q = absurd (cc)
  returns_resting r r' (announce _ h e) b q = absurd (cc)
  returns_resting r r' (claim _ h e x) b q = absurd (cc)
  returns_resting r r' (miss _ h e x) b q = absurd (cc)
  returns_resting r r' (retract _ h e) b q = refl
  returns_resting r r' (read _ h e) b q = absurd (cc)
  returns_resting r r' (leave _ h v e) b q = refl

  -- What the loop knows after an access, by where it is then.
  Waits-go_on :
      (l : Loop) (r r' : Ring A) (n d : Bool)
      → in_drain l ≡ true
      → Pop cap item r r'
      → Waits l r.tail r.head n d r.consumer
      → Waits l r'.tail r'.head n d r'.consumer
  Waits-go_on (draining did_work) r r' n d i p w = tt
  Waits-go_on (last_drain did_work) r r' n d i p w = (w.0, Pop-Fresh r r' p w.1)
  Waits-go_on _ r r' n d i p w = absurd (cc)

  Waits-take_item :
      (l : Loop) (r r' : Ring A) (n d : Bool)
      → in_drain l ≡ true
      → Pop cap item r r'
      → Waits l r.tail r.head n d r.consumer
      → Waits (with_work l) r'.tail r'.head n d r'.consumer
  Waits-take_item (draining did_work) r r' n d i p w = tt
  Waits-take_item (last_drain did_work) r r' n d i p w = (w.0, Pop-Fresh r r' p w.1)
  Waits-take_item _ r r' n d i p w = absurd (cc)

  Waits-end_drain :
      (l : Loop) (r r' : Ring A) (n d : Bool) (p : Pop cap item r r')
      → in_drain l ≡ true
      → returned cap item p ≡ some false
      → Waits l r.tail r.head n d r.consumer
      → Waits (after_drain l) r'.tail r'.head n d r'.consumer
  Waits-end_drain (draining true) r r' n d p i q w = tt
  Waits-end_drain (draining false) r r' n d p i q w = tt
  Waits-end_drain (last_drain true) r r' n d p i q w = tt
  Waits-end_drain (last_drain false) r r' n d p i q w = (w.0, failed_empty r r' p q w.1)
  Waits-end_drain _ r r' n d p i q w = absurd (cc)

  module _ (s : Stage A) (fits : s.ring.calls < 2 ^ 64) (h : Holds cap item s) where
    -- The loop moves on, without an access of `try_pop`.
    turn :
        (l l' : Loop)
        → s.loop ≡ l
        → in_drain l ≡ false
        → Waits l' s.ring.tail s.ring.head s.notified s.done s.ring.consumer
        → Holds cap item (record s { loop = l' })
    turn l l' e out w = record {
      sound = h.sound;
      bumps = h.bumps;
      told = h.told;
      quiet = h.quiet;
      between = λ i. h.between (ap in_drain e ∙ out);
      waits = w;
    }

    pub Waits-at :
        (l : Loop) → s.loop ≡ l → Waits l s.ring.tail s.ring.head s.notified s.done s.ring.consumer
    Waits-at l e =
        subst (λ x. Waits x s.ring.tail s.ring.head s.notified s.done s.ring.consumer) e h.waits

    -- The access of `try_pop` is made, and the loop goes to `l`.
    popped :
        (r : Ring A) (l : Loop)
        → Pop cap item s.ring r
        → (in_drain l ≡ false → r.consumer ≡ resting)
        → Waits l r.tail r.head s.notified s.done r.consumer
        → Holds cap item (record s { ring = r; loop = l })
    popped r l p rest w =
        let (t, q, g, c) = Pop-Leaves s.ring r p in
        let b = h.bumps in
        let u = ap unannounced q in
        record {
          sound = Pop-IsSound cap item s.ring r fits h.sound p;
          bumps = omega arith;
          told = h.told;
          quiet = λ d. q ∙ h.quiet d;
          between = rest;
          waits = w;
        }

  pub Downstream-calls : (s s' : Stage A) → Downstream cap item s s' → s'.ring.calls ≡ s.ring.calls
  Downstream-calls s s' (go_on _ r p i q) = (Pop-Leaves s.ring r p).3
  Downstream-calls s s' (take_item _ r p i q) = (Pop-Leaves s.ring r p).3
  Downstream-calls s s' (end_drain _ r p i q) = (Pop-Leaves s.ring r p).3
  Downstream-calls s s' (see_done _ e d) = refl
  Downstream-calls s s' (see_running _ e d) = refl
  Downstream-calls s s' (look _ e) = refl
  Downstream-calls s s' (look_some _ t e x) = refl
  Downstream-calls s s' (look_none _ t e x) = refl
  Downstream-calls s s' (snapshot _ e) = refl
  Downstream-calls s s' (recheck _ g e) = refl
  Downstream-calls s s' (recheck_some _ g t e x) = refl
  Downstream-calls s s' (recheck_none _ g t e x) = refl
  Downstream-calls s s' (wake_up _ g e x) = refl

  pub Downstream-Holds :
      (s s' : Stage A)
      → s.ring.calls < 2 ^ 64
      → Holds cap item s
      → Downstream cap item s s'
      → Holds cap item s'
  Downstream-Holds s s' fits h (go_on _ r p i q) =
      popped s fits h r s.loop p (λ out. absurd (cc))
        (Waits-go_on s.loop s.ring r s.notified s.done i p h.waits)
  Downstream-Holds s s' fits h (take_item _ r p i q) =
      popped s fits h r (with_work s.loop) p (λ out. returns_resting s.ring r p true q)
        (Waits-take_item s.loop s.ring r s.notified s.done i p h.waits)
  Downstream-Holds s s' fits h (end_drain _ r p i q) =
      popped s fits h r (after_drain s.loop) p (λ out. returns_resting s.ring r p false q)
        (Waits-end_drain s.loop s.ring r s.notified s.done p i q h.waits)
  Downstream-Holds s s' fits h (see_done _ e d) =
      turn s fits h checking (last_drain false) e refl
        (d, subst (λ c. Fresh c s.ring.head) (sym (h.between (ap in_drain e))) tt)
  Downstream-Holds s s' fits h (see_running _ e d) = turn s fits h checking looking e refl tt
  Downstream-Holds s s' fits h (look _ e) = turn s fits h looking (looked s.ring.tail) e refl tt
  Downstream-Holds s s' fits h (look_some _ t e x) =
      turn s fits h (looked t) (draining false) e refl tt
  Downstream-Holds s s' fits h (look_none _ t e x) = turn s fits h (looked t) snapshotting e refl tt
  Downstream-Holds s s' fits h (snapshot _ e) =
      let b = h.bumps in
      turn s fits h snapshotting (rechecking s.ring.wake_generation) e refl (omega arith)
  Downstream-Holds s s' fits h (recheck _ g e) =
      turn s fits h (rechecking g) (rechecked g s.ring.tail) e refl
        (Waits-at s fits h (rechecking g) e)
  Downstream-Holds s s' fits h (recheck_some _ g t e x) =
      turn s fits h (rechecked g t) (draining false) e refl tt
  Downstream-Holds s s' fits h (recheck_none _ g t e x) =
      let w = Waits-at s fits h (rechecked g t) e in
      turn s fits h (rechecked g t) (blocked g) e refl (omega arith)
  Downstream-Holds s s' fits h (wake_up _ g e x) =
      turn s fits h (blocked g) (draining false) e refl tt
