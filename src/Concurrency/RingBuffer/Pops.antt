-- ===== src/Concurrency/RingBuffer/Pops.antt =====
-- The accesses of `try_pop` under the invariant.
use mathlib.Core.Path.{subst}
use low_latency_market_data.Common.{
  ℕ, ◌+◌, ◌%◌, ◌^◌, ◌≡◌, ◌≤◌, ◌<◌, ◌∷◌, Bool, true, false, ◌==◌, ==_refl, length, arith, refl, ap,
}
use low_latency_market_data.Common.Words.{add64}
use low_latency_market_data.Concurrency.RingBuffer.{
  writing, Consumer, resting, guessed, announcing, claiming, retracting, reading, leaving, Ring,
  write, Pop, guess, find_empty, find_item, announce, claim, miss, retract, read, leave,
}
use low_latency_market_data.Concurrency.RingBuffer.Slots.{other_slot}
use low_latency_market_data.Concurrency.RingBuffer.Monotone.{Knows-head, Knows-calls}
use low_latency_market_data.Concurrency.RingBuffer.Invariant.{
  IsSound, Knows, Sees, InOrder, claimed, held, uncounted,
}

head_of : {A : Type 0} → Consumer A → ℕ
head_of (reading h) = h
head_of c = 0

reading_injective : {A : Type 0} {h h' : ℕ} → ◌≡◌ {A = Consumer A} (reading h) (reading h') → h ≡ h'
unfolding head_of
reading_injective q = ap head_of q

module _ {A : Type 0} (cap : ℕ) (item : ℕ → A) where
  module _ (s : Ring A) (sound : IsSound cap item s) where
    pub seen :
        (c : Consumer A) → s.consumer ≡ c → Sees cap item c s.tail s.head s.value s.reader_active
    seen c e = subst (λ q. Sees cap item q s.tail s.head s.value s.reader_active) e sound.sees

    logged :
        (c : Consumer A) → s.consumer ≡ c → InOrder cap item (claimed cap item c s.head) s.delivered
    logged c e =
        subst (λ q. InOrder cap item (claimed cap item q s.head) s.delivered) e sound.in_order

    counted :
        (c : Consumer A)
        → s.consumer ≡ c
        → length s.delivered + held cap item c + s.dropped + uncounted cap item s.producer ≡ s.head
    counted c e =
        subst
          (λ q.
            length s.delivered + held cap item q + s.dropped + uncounted cap item s.producer
            ≡ s.head)
          e sound.count

    -- The consumer moves on, and may write its flags, without a claim.
    moved :
        (c c' : Consumer A) (active : ℕ → Bool)
        → s.consumer ≡ c
        → Sees cap item c' s.tail s.head s.value active
        → claimed cap item c s.head ≡ claimed cap item c' s.head
        → held cap item c ≡ held cap item c'
        → ((h : ℕ) → c' ≡ reading h → ⊥)
        → IsSound cap item (record s { consumer = c'; reader_active = active })
    moved c c' active e k bound same quiet = record {
      order = sound.order;
      lap = sound.lap;
      queued = sound.queued;
      knows = sound.knows;
      sees = k;
      apart = λ t h p q. absurd (quiet h q);
      in_order = subst (λ n. InOrder cap item n s.delivered) bound (logged c e);
      count =
          subst (λ n. length s.delivered + n + s.dropped + uncounted cap item s.producer ≡ s.head)
            same (counted c e);
    }

    -- The producer that is about to write is less than a lap ahead of the head.
    writer_off :
        (t : ℕ) → s.producer ≡ writing t → s.head < s.tail → ((t % cap) == (s.head % cap)) ≡ false
    writer_off t p some_queued =
        let (kt, kc, kl) : Knows cap item (writing t) s.tail s.head s.calls s.value =
          subst (λ q. Knows cap item q s.tail s.head s.calls s.value) p sound.knows in
        other_slot cap s.head t (omega arith) kl

    claim-IsSound :
        s.calls < 2 ^ 64
        → s.tail ≤ s.calls
        → (h : ℕ) → s.consumer ≡ claiming h
        → s.head ≡ h
        → IsSound cap item (record s { consumer = reading h; head = add64 h 1 })
    claim-IsSound fits le h e hit =
        let (sh, st, sa) = seen (claiming h) e in
        let next : add64 h 1 ≡ s.head + 1 = omega arith in
        let lap = sound.lap in
        let c = counted (claiming h) e in
        rw next (record {
          order = omega arith;
          lap = omega arith;
          queued = λ k lo hi. sound.queued k (omega arith) hi;
          knows =
              Knows-head cap item s.producer s.tail s.head (s.head + 1) s.calls s.value
                (omega arith) sound.knows;
          sees = (omega arith, sa, sound.queued h (omega arith) st);
          apart = λ t h' p q. rw (← reading_injective q, ← hit) (writer_off t p (omega arith));
          in_order = rw (← hit) (logged (claiming h) e);
          count = omega arith;
        })

    leave-IsSound :
        (h : ℕ) (v : A)
        → s.consumer ≡ leaving h v
        → IsSound cap item (record s {
          consumer = resting;
          reader_active = write s.reader_active (h % cap) false;
          delivered = (h, v) ∷ s.delivered;
        })
    leave-IsSound h v e =
        let (sh, sv) = seen (leaving h v) e in
        let c = counted (leaving h v) e in
        record {
          order = sound.order;
          lap = sound.lap;
          queued = sound.queued;
          knows = sound.knows;
          sees = tt;
          apart = λ t h' p q. absurd (cc);
          in_order = (sh, sv, logged (leaving h v) e);
          count = omega arith;
        }

  pub Pop-IsSound :
      (s s' : Ring A)
      → s.calls < 2 ^ 64
      → IsSound cap item s
      → Pop cap item s s'
      → IsSound cap item s'
  Pop-IsSound s s' fits sound (guess _ e) =
      moved s sound resting (guessed s.head) s.reader_active e (omega arith) refl refl
        (λ h q. absurd (cc))
  Pop-IsSound s s' fits sound (find_empty _ h e none_left) =
      moved s sound (guessed h) resting s.reader_active e tt refl refl (λ h q. absurd (cc))
  Pop-IsSound s s' fits sound (find_item _ h e some_left) =
      let k = seen s sound (guessed h) e in
      let o = sound.order in
      moved s sound (guessed h) (announcing h) s.reader_active e (k, omega arith) refl refl
        (λ h q. absurd (cc))
  Pop-IsSound s s' fits sound (announce _ h e) =
      let (kh, kt) = seen s sound (announcing h) e in
      moved s sound (announcing h) (claiming h) (write s.reader_active (h % cap) true) e
        (kh, kt, rw (==_refl (h % cap))) refl refl (λ h q. absurd (cc))
  Pop-IsSound s s' fits sound (claim _ h e hit) =
      claim-IsSound s sound fits
        (Knows-calls cap item s.producer s.tail s.head s.calls s.value sound.knows) h e hit
  Pop-IsSound s s' fits sound (miss _ h e lost) =
      moved s sound (claiming h) (retracting h) s.reader_active e tt refl refl (λ h q. absurd (cc))
  Pop-IsSound s s' fits sound (retract _ h e) =
      moved s sound (retracting h) resting (write s.reader_active (h % cap) false) e tt refl refl
        (λ h q. absurd (cc))
  Pop-IsSound s s' fits sound (read _ h e) =
      let (kh, ka, kv) = seen s sound (reading h) e in
      moved s sound (reading h) (leaving h (s.value (h % cap))) s.reader_active e (kh, kv) refl refl
        (λ h q. absurd (cc))
  Pop-IsSound s s' fits sound (leave _ h v e) = leave-IsSound s sound h v e
