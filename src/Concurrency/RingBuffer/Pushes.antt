-- ===== src/Concurrency/RingBuffer/Pushes.antt =====
-- The accesses of `push` under the invariant.
use low_latency_market_data.Common.{ℕ, ◌+◌, ◌^◌, ◌<◌, arith, refl, sym, ap}
use low_latency_market_data.Concurrency.RingBuffer.{
  idle, called, knows_tail, knows_head, evicting, waiting, waking, Ring, Push, call, load_tail,
  load_head, full, room, evict, lose, count_drop, spin, enter, write_value, store_tail, wake,
}
use low_latency_market_data.Concurrency.RingBuffer.Invariant.{IsSound, uncounted}
use low_latency_market_data.Concurrency.RingBuffer.Moves.{
  moved, known, count-IsSound, enter-IsSound, evict-IsSound, store-IsSound, write-IsSound,
}

module _ {A : Type 0} (cap : ℕ) (item : ℕ → A) where
  pub Push-IsSound :
      (s s' : Ring A)
      → 0 < cap
      → s'.calls < 2 ^ 64
      → IsSound cap item s
      → Push cap item s s'
      → IsSound cap item s'
  Push-IsSound s s' pos fits sound (call _ e) =
      let k = known cap item s sound idle e in
      moved cap item s sound called (s.calls + 1) (ap (λ n. n + 1) k)
        (sym (ap (uncounted cap item) e)) (λ t q. absurd (cc))
  Push-IsSound s s' pos fits sound (load_tail _ e) =
      let k = known cap item s sound called e in
      moved cap item s sound (knows_tail s.tail) s.calls (refl, k) (sym (ap (uncounted cap item) e))
        (λ t q. absurd (cc))
  Push-IsSound s s' pos fits sound (load_head _ t e) =
      let k = known cap item s sound (knows_tail t) e in
      let o = sound.order in
      let l = sound.lap in
      moved cap item s sound (knows_head t s.head) s.calls
        (k.0, k.1, omega arith, omega arith, omega arith) (sym (ap (uncounted cap item) e))
        (λ t q. absurd (cc))
  Push-IsSound s s' pos fits sound (full _ t h e le) =
      let (kt, kc, kh, kl, kb) = known cap item s sound (knows_head t h) e in
      moved cap item s sound (evicting t h) s.calls (kt, kc, kh, ground arith)
        (sym (ap (uncounted cap item) e)) (λ t q. absurd (cc))
  Push-IsSound s s' pos fits sound (room _ t h e lt) =
      let (kt, kc, kh, kl, kb) = known cap item s sound (knows_head t h) e in
      moved cap item s sound (waiting t) s.calls (kt, kc, ground arith)
        (sym (ap (uncounted cap item) e)) (λ t q. absurd (cc))
  Push-IsSound s s' pos fits sound (evict _ t h e hit) =
      evict-IsSound cap item s sound pos fits t h e hit
  Push-IsSound s s' pos fits sound (lose _ t h e miss) =
      let (kt, kc, kh, kl) = known cap item s sound (evicting t h) e in
      moved cap item s sound (waiting t) s.calls (kt, kc, omega arith)
        (sym (ap (uncounted cap item) e)) (λ t q. absurd (cc))
  Push-IsSound s s' pos fits sound (count_drop _ t e) = count-IsSound cap item s sound fits t e
  Push-IsSound s s' pos fits sound (spin _ t e busy) = sound
  Push-IsSound s s' pos fits sound (enter _ t e free) = enter-IsSound cap item s sound t e free
  Push-IsSound s s' pos fits sound (write_value _ t e) = write-IsSound cap item s sound t e
  Push-IsSound s s' pos fits sound (store_tail _ t e) = store-IsSound cap item s sound fits t e
  Push-IsSound s s' pos fits sound (wake _ e) =
      let k = known cap item s sound waking e in
      let u = sym (ap (uncounted cap item) e) in
      let m = moved cap item s sound idle s.calls k u (λ t q. absurd (cc)) in
      record {
        order = m.order;
        lap = m.lap;
        queued = m.queued;
        knows = m.knows;
        sees = m.sees;
        apart = m.apart;
        in_order = m.in_order;
        count = m.count;
      }
