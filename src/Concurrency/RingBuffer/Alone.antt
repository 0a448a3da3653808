-- ===== src/Concurrency/RingBuffer/Alone.antt =====
-- A call of `push` that meets no call of `try_pop`, against the buffer as such calls see it.
use mathlib.Core.Path.{subst}
use low_latency_market_data.Common.{
  ℕ, zero, suc, ◌+◌, ◌-◌, ◌%◌, ◌^◌, ◌≡◌, ◌≤◌, ◌<◌, List, [], ◌∷◌, ◌++◌, false, leb, drop, length,
  arith, refl, sym, ap, ◌∙◌, Bool-cases, inl, inr,
}
use low_latency_market_data.Common.Words.{add64, sub64}
use low_latency_market_data.Concurrency.Queue
use low_latency_market_data.Concurrency.Queue.{Queue}
use low_latency_market_data.Concurrency.RingBuffer.{
  idle, Ring, write, Push, call, load_tail, load_head, full, room, evict, count_drop, enter,
  write_value, store_tail, wake,
}
use low_latency_market_data.Concurrency.RingBuffer.Invariant.{IsSound, Knows}
use low_latency_market_data.Concurrency.RingBuffer.Pushes.{Push-IsSound}
use low_latency_market_data.Concurrency.RingBuffer.Delivery.{Push-calls}

module _ {A : Type 0} (cap : ℕ) (item : ℕ → A) where
  -- The items in the slots from number `h`.
  abbrev pub window : (ℕ → A) → (h n : ℕ) → List A
  window value h zero = []
  window value h (suc n) = value (h % cap) ∷ window value (h + 1) n

  abbrev pub view : Ring A → Queue A
  view s = record { items = window s.value s.head (s.tail - s.head); dropped = s.dropped }

  -- Accesses of the producer only.
  pub data Alone : Ring A → Ring A → Type 0 where
    done : (s : Ring A) → Alone s s
    more : (s s1 s' : Ring A) → Push cap item s s1 → Alone s1 s' → Alone s s'

  Alone-calls : (s s' : Ring A) → Alone s s' → s.calls ≤ s'.calls
  Alone-calls s s' (done _) = omega arith
  Alone-calls s s' (more _ s1 _ p r) =
      omega (arith, Push-calls cap item s s1 p, Alone-calls s1 s' r)

  Alone-IsSound :
      (s s' : Ring A)
      → 0 < cap
      → s'.calls < 2 ^ 64
      → IsSound cap item s
      → Alone s s'
      → IsSound cap item s'
  Alone-IsSound s s' pos fits sound (done _) = sound
  Alone-IsSound s s' pos fits sound (more _ s1 _ p r) =
      Alone-IsSound s1 s' pos fits
        (Push-IsSound cap item s s1 pos (omega (arith, Alone-calls s1 s' r)) sound p) r

  items : (h n : ℕ) → List A
  items h zero = []
  items h (suc n) = item h ∷ items (h + 1) n

  items-snoc : (h n : ℕ) → items h n ++ item (h + n) ∷ [] ≡ items h (suc n)
  unfolding items
  items-snoc h zero = let e : h + 0 ≡ h = omega arith in ap (λ k. item k ∷ []) e
  items-snoc h (suc n) =
      let e : h + suc n ≡ h + 1 + n = omega arith in
      rw e (ap (λ l. item h ∷ l) (items-snoc (h + 1) n))

  length-items : (h n : ℕ) → length (items h n) ≡ n
  unfolding items
  length-items h zero = refl
  length-items h (suc n) = ap suc (length-items (h + 1) n)

  window-items :
      (value : ℕ → A) (h n : ℕ)
      → ((k : ℕ) → h ≤ k → k < h + n → value (k % cap) ≡ item k)
      → window value h n ≡ items h n
  unfolding items
  window-items value h zero q = refl
  window-items value h (suc n) q = rw (q h (omega arith) (omega arith)) (
      ap (λ l. item h ∷ l)
        (window-items value (h + 1) n (λ k lo hi. q k (omega arith) (omega arith))))

  drop-items : (h n : ℕ) → drop 1 (items h n) ≡ items (h + 1) (n - 1)
  unfolding items
  drop-items h zero = refl
  drop-items h (suc n) = let e : n ≡ suc n - 1 = omega arith in ap (λ k. items (h + 1) k) e

  view-items : (s : Ring A) → IsSound cap item s → (view s).items ≡ items s.head (s.tail - s.head)
  view-items s sound =
      let o = sound.order in
      window-items s.value s.head (s.tail - s.head) (λ k lo hi. sound.queued k lo (omega arith))

  module _ (s : Ring A) (pos : 0 < cap) (sound : IsSound cap item s) (rest : s.producer ≡ idle)
      (quiet : s.reader_active (s.tail % cap) ≡ false) (fits : s.calls + 1 < 2 ^ 64) where
    caught_up : s.calls ≡ s.tail
    caught_up = subst (λ q. Knows cap item q s.tail s.head s.calls s.value) rest sound.knows

    -- The state after the call, by the head and the count of drops that it leaves.
    abbrev pub ending : ℕ → ℕ → Ring A
    ending head dropped = record s {
      producer = idle;
      calls = s.calls + 1;
      value = write s.value (s.tail % cap) (item (s.calls + 1 - 1));
      tail = add64 s.tail 1;
      head = head;
      dropped = dropped;
      wake_generation = add64 s.wake_generation 1;
    }

    with_room : sub64 s.tail s.head < cap → Alone s (ending s.head s.dropped)
    with_room lt = more _ _ _ (call s rest) (
        more _ _ _ (load_tail _ refl) (
          more _ _ _ (load_head _ s.tail refl) (
            more _ _ _ (room _ s.tail s.head refl lt) (
              more _ _ _ (enter _ s.tail refl quiet) (
                more _ _ _ (write_value _ s.tail refl)
                  (more _ _ _ (store_tail _ s.tail refl) (more _ _ _ (wake _ refl) (done _))))))))

    when_full : cap ≤ sub64 s.tail s.head → Alone s (ending (add64 s.head 1) (add64 s.dropped 1))
    when_full le = more _ _ _ (call s rest) (
        more _ _ _ (load_tail _ refl) (
          more _ _ _ (load_head _ s.tail refl) (
            more _ _ _ (full _ s.tail s.head refl le) (
              more _ _ _ (evict _ s.tail s.head refl refl) (
                more _ _ _ (count_drop _ s.tail refl) (
                  more _ _ _ (enter _ s.tail refl quiet) (
                    more _ _ _ (write_value _ s.tail refl) (
                      more _ _ _ (store_tail _ s.tail refl)
                        (more _ _ _ (wake _ refl) (done _))))))))))

    length-view : length (view s).items ≡ s.tail - s.head
    length-view = ap length (view-items s sound) ∙ length-items s.head (s.tail - s.head)

    items_with_room :
        sub64 s.tail s.head < cap
        → (view (ending s.head s.dropped)).items ≡ (view s).items ++ item s.calls ∷ []
    items_with_room lt =
        let s' = ending s.head s.dropped in
        let o = sound.order in
        let k = caught_up in
        let n = s.tail - s.head in
        let count : add64 s.tail 1 - s.head ≡ suc n = omega arith in
        let last : s.head + n ≡ s.calls = omega arith in
        view-items s' (Alone-IsSound s s' pos fits sound (with_room lt))
        ∙ ap (λ m. items s.head m) count
        ∙ sym (items-snoc s.head n)
        ∙ ap (λ m. items s.head n ++ item m ∷ []) last
        ∙ ap (λ l. l ++ item s.calls ∷ []) (sym (view-items s sound))

    items_when_full :
        cap ≤ sub64 s.tail s.head
        → (view (ending (add64 s.head 1) (add64 s.dropped 1))).items
          ≡ drop 1 (view s).items ++ item s.calls ∷ []
    items_when_full le =
        let s' = ending (add64 s.head 1) (add64 s.dropped 1) in
        let o = sound.order in
        let k = caught_up in
        let n = s.tail - s.head in
        let next : add64 s.head 1 ≡ s.head + 1 = omega arith in
        let count : add64 s.tail 1 - add64 s.head 1 ≡ suc (n - 1) = omega arith in
        let last : s.head + 1 + (n - 1) ≡ s.calls = omega arith in
        view-items s' (Alone-IsSound s s' pos fits sound (when_full le))
        ∙ ap (λ m. items (add64 s.head 1) m) count
        ∙ ap (λ h. items h (suc (n - 1))) next
        ∙ sym (items-snoc (s.head + 1) (n - 1))
        ∙ ap (λ m. items (s.head + 1) (n - 1) ++ item m ∷ []) last
        ∙ ap (λ l. l ++ item s.calls ∷ [])
            (sym (drop-items s.head n) ∙ ap (λ l. drop 1 l) (sym (view-items s sound)))

    -- In a sound state where the producer rests, no reader has announced itself at the slot of the
    -- next push, and fewer than 2^64 - 1 pushes were made, a call of `push` made of the producer's
    -- accesses alone ends, and does to the queue and the count of drops what `Queue.push` does.
    pub push-Alone :
        (s' : Ring A) × Alone s s'
        × (s'.producer ≡ idle)
        × (view s' ≡ Queue.push cap (item s.calls) (view s))
    unfolding Queue.push
    push-Alone =
        let o = sound.order in
        let k = caught_up in
        let len = length-view in
        elim (Bool-cases (leb cap (length (window s.value s.head (s.tail - s.head))))) [
          | inl over ↦
              let le : cap ≤ sub64 s.tail s.head = ground arith in
              (
                ending (add64 s.head 1) (add64 s.dropped 1),
                when_full le,
                refl,
                rw over (
                    ap (λ l. record { items = l; dropped = add64 s.dropped 1 })
                      (items_when_full le)),
              )
          | inr under ↦
              let lt : sub64 s.tail s.head < cap = ground arith in
              (
                ending s.head s.dropped,
                with_room lt,
                refl,
                rw under (ap (λ l. record { items = l; dropped = s.dropped }) (items_with_room lt)),
              )
        ]
