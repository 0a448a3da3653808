-- ===== src/Concurrency/RingBuffer/Moves.antt =====
-- Each kind of access that `push` makes under the invariant.
use mathlib.Core.Path.{subst}
use low_latency_market_data.Common.{
  ℕ, ◌+◌, ◌-◌, ◌%◌, ◌^◌, ◌≡◌, ◌<◌, false, ◌==◌, ==_iff, ==_refl, length, arith, sym, ap, ◌∙◌,
  Bool-cases, inl, inr,
}
use low_latency_market_data.Common.Words.{add64}
use low_latency_market_data.Concurrency.RingBuffer.{
  Producer, evicting, evicted, waiting, writing, storing, waking, Consumer, reading, Ring, write,
}
use low_latency_market_data.Concurrency.RingBuffer.Slots.{other_slot}
use low_latency_market_data.Concurrency.RingBuffer.Monotone.{
  Sees-head, Sees-tail, Sees-write, claimed-head,
}
use low_latency_market_data.Concurrency.RingBuffer.Invariant.{IsSound, Knows, Sees, held, uncounted}

place : Producer → ℕ
place (writing t) = t
place p = 0

writing_injective : {t t' : ℕ} → writing t ≡ writing t' → t ≡ t'
unfolding place
writing_injective q = ap place q

module _ {A : Type 0} (cap : ℕ) (item : ℕ → A) where
  module _ (s : Ring A) (sound : IsSound cap item s) where
    -- The producer moves on without a write to what the consumer shares.
    pub moved :
        (p : Producer) (calls : ℕ)
        → Knows cap item p s.tail s.head calls s.value
        → uncounted cap item p ≡ uncounted cap item s.producer
        → ((t : ℕ) → p ≡ writing t → ⊥)
        → IsSound cap item (record s { producer = p; calls = calls })
    moved p calls k u quiet = record {
      order = sound.order;
      lap = sound.lap;
      queued = sound.queued;
      knows = k;
      sees = sound.sees;
      apart = λ t h e. absurd (quiet t e);
      in_order = sound.in_order;
      count =
          ap (λ n. length s.delivered + held cap item s.consumer + s.dropped + n) u ∙ sound.count;
    }

    pub known : (p : Producer) → s.producer ≡ p → Knows cap item p s.tail s.head s.calls s.value
    known p e = subst (λ q. Knows cap item q s.tail s.head s.calls s.value) e sound.knows

    seen : (c : Consumer A) → s.consumer ≡ c → Sees cap item c s.tail s.head s.value s.reader_active
    seen c e = subst (λ q. Sees cap item q s.tail s.head s.value s.reader_active) e sound.sees

    -- The producer takes the oldest item.
    pub evict-IsSound :
        0 < cap
        → s.calls < 2 ^ 64
        → (t h : ℕ) → s.producer ≡ evicting t h
        → s.head ≡ h
        → IsSound cap item (record s { producer = evicted t; head = add64 h 1 })
    evict-IsSound pos fits t h e hit =
        let (kt, kc, kh, kl) = known (evicting t h) e in
        let o = sound.order in
        let next : add64 h 1 ≡ s.head + 1 = omega arith in
        let c = sound.count in
        let u = ap (uncounted cap item) e in
        rw next (record {
          order = omega arith;
          lap = omega arith;
          queued = λ k lo hi. sound.queued k (omega arith) hi;
          knows = (kt, kc, omega arith);
          sees =
              Sees-head cap item s.consumer s.tail s.head (s.head + 1) s.value s.reader_active
                (omega arith) sound.sees;
          apart = λ t' h' q. absurd (cc);
          in_order =
              claimed-head cap item s.consumer s.head (s.head + 1) s.delivered (omega arith)
                sound.in_order;
          count = omega arith;
        })

    pub count-IsSound :
        s.calls < 2 ^ 64
        → (t : ℕ) → s.producer ≡ evicted t
        → IsSound cap item (record s { producer = waiting t; dropped = add64 s.dropped 1 })
    count-IsSound fits t e =
        let (kt, kc, kl) = known (evicted t) e in
        let o = sound.order in
        let c = sound.count in
        let u : uncounted cap item s.producer ≡ 1 = ap (uncounted cap item) e in
        record {
          order = o;
          lap = sound.lap;
          queued = sound.queued;
          knows = (kt, kc, kl);
          sees = sound.sees;
          apart = λ t' h' q. absurd (cc);
          in_order = sound.in_order;
          count = omega arith;
        }

    no_reader :
        (t t' h : ℕ)
        → s.reader_active (t % cap) ≡ false
        → t ≡ t'
        → s.consumer ≡ reading h
        → ((t' % cap) == (h % cap)) ≡ false
    no_reader t t' h free same r = elim (Bool-cases ((t' % cap) == (h % cap))) [
      | inl hit ↦
          let (below, active, value) = seen (reading h) r in
          let slot : t % cap ≡ h % cap =
            ap (λ x. x % cap) same ∙ (==_iff (t' % cap) (h % cap)).0 hit in
          absurd (cc)
      | inr miss ↦ miss
    ]

    -- No read of the slot is on its way once its flag is down.
    pub enter-IsSound :
        (t : ℕ)
        → s.producer ≡ waiting t
        → s.reader_active (t % cap) ≡ false
        → IsSound cap item (record s { producer = writing t })
    enter-IsSound t e free =
        let k = known (waiting t) e in
        record {
          order = sound.order;
          lap = sound.lap;
          queued = sound.queued;
          knows = k;
          sees = sound.sees;
          apart = λ t' h' q r. no_reader t t' h' free (writing_injective q) r;
          in_order = sound.in_order;
          count =
              ap (λ n. length s.delivered + held cap item s.consumer + s.dropped + n)
                (sym (ap (uncounted cap item) e))
              ∙ sound.count;
        }

    pub write-IsSound :
        (t : ℕ)
        → s.producer ≡ writing t
        → IsSound cap item (record s {
          producer = storing t;
          value = write s.value (t % cap) (item (s.calls - 1));
        })
    write-IsSound t e =
        let (kt, kc, kl) = known (writing t) e in
        record {
          order = sound.order;
          lap = sound.lap;
          queued =
              λ k lo hi. rw (other_slot cap k t (omega arith) (omega arith)) (sound.queued k lo hi);
          knows = (
            kt,
            kc,
            kl,
            rw (==_refl (t % cap)) (let same : s.calls - 1 ≡ t = omega arith in ap item same),
          );
          sees =
              Sees-write cap item s.consumer s.tail s.head s.value s.reader_active (t % cap)
                (item (s.calls - 1)) (λ h q. sound.apart t h e q) sound.sees;
          apart = λ t' h' q. absurd (cc);
          in_order = sound.in_order;
          count =
              ap (λ n. length s.delivered + held cap item s.consumer + s.dropped + n)
                (sym (ap (uncounted cap item) e))
              ∙ sound.count;
        }

    pub store-IsSound :
        s.calls < 2 ^ 64
        → (t : ℕ) → s.producer ≡ storing t
        → IsSound cap item (record s { producer = waking; tail = add64 t 1 })
    store-IsSound fits t e =
        let (kt, kc, kl, kv) = known (storing t) e in
        let o = sound.order in
        let next : add64 t 1 ≡ s.tail + 1 = omega arith in
        rw next (record {
          order = omega arith;
          lap = omega arith;
          queued = λ k lo hi. elim (Bool-cases (k == t)) [
            | inl hit ↦ rw ((==_iff k t).0 hit) kv
            | inr miss ↦ sound.queued k lo (ground arith)
          ];
          knows = kc;
          sees =
              Sees-tail cap item s.consumer s.tail (s.tail + 1) s.head s.value s.reader_active
                (omega arith) sound.sees;
          apart = λ t' h' q. absurd (cc);
          in_order = sound.in_order;
          count =
              ap (λ n. length s.delivered + held cap item s.consumer + s.dropped + n)
                (sym (ap (uncounted cap item) e))
              ∙ sound.count;
        })
