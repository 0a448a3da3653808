-- ===== src/Concurrency/RingBuffer/Invariant.antt =====
-- The invariant of the ring buffer: what the memory holds, and what each thread knows at its place.
use low_latency_market_data.Common.{
  ℕ, ◌+◌, ◌%◌, ◌≡◌, ◌≤◌, ◌<◌, List, [], ◌∷◌, Bool, true, false, ◌==◌, length, arith, refl,
}
use low_latency_market_data.Concurrency.RingBuffer.{
  Producer, idle, called, knows_tail, knows_head, evicting, evicted, waiting, writing, storing,
  waking, Consumer, resting, guessed, announcing, claiming, retracting, reading, leaving, Ring,
  initial,
}

module _ {A : Type 0} (cap : ℕ) (item : ℕ → A) where
  -- What the producer knows: the call is the one that `tail` counts next, and past the check for
  -- room the slot at `tail` is free of queued items.
  abbrev pub Knows : Producer → (tail head calls : ℕ) → (ℕ → A) → Type 0
  Knows idle tail head calls value = calls ≡ tail
  Knows called tail head calls value = calls ≡ tail + 1
  Knows (knows_tail t) tail head calls value = (t ≡ tail) × (calls ≡ tail + 1)
  Knows (knows_head t h) tail head calls value =
      (t ≡ tail) × (calls ≡ tail + 1) × (h ≤ head) × (t ≤ h + cap) × (h ≤ t)
  Knows (evicting t h) tail head calls value =
      (t ≡ tail) × (calls ≡ tail + 1) × (h ≤ head) × (t ≡ h + cap)
  Knows (evicted t) tail head calls value = (t ≡ tail) × (calls ≡ tail + 1) × (t < head + cap)
  Knows (waiting t) tail head calls value = (t ≡ tail) × (calls ≡ tail + 1) × (t < head + cap)
  Knows (writing t) tail head calls value = (t ≡ tail) × (calls ≡ tail + 1) × (t < head + cap)
  Knows (storing t) tail head calls value =
      (t ≡ tail) × (calls ≡ tail + 1) × (t < head + cap) × (value (t % cap) ≡ item t)
  Knows waking tail head calls value = calls ≡ tail

  -- What the consumer knows: its guess is an item that has been queued, and once the claim is won
  -- the slot still holds that item.
  abbrev pub Sees : Consumer A → (tail head : ℕ) → (ℕ → A) → (ℕ → Bool) → Type 0
  Sees resting tail head value active = Unit {0}
  Sees (guessed h) tail head value active = h ≤ head
  Sees (announcing h) tail head value active = (h ≤ head) × (h < tail)
  Sees (claiming h) tail head value active = (h ≤ head) × (h < tail) × (active (h % cap) ≡ true)
  Sees (retracting h) tail head value active = Unit {0}
  Sees (reading h) tail head value active =
      (h < head) × (active (h % cap) ≡ true) × (value (h % cap) ≡ item h)
  Sees (leaving h v) tail head value active = (h < head) × (v ≡ item h)

  -- The producer never writes the slot that the consumer reads.
  abbrev pub Apart : Producer → Consumer A → Type 0
  Apart p c = (t h : ℕ) → p ≡ writing t → c ≡ reading h → ((t % cap) == (h % cap)) ≡ false

  -- The transitions that `try_pop` claimed fall, below `bound`, and each gave the item pushed there.
  abbrev pub InOrder : ℕ → List (ℕ × A) → Type 0
  InOrder bound [] = Unit {0}
  InOrder bound ((k, v) ∷ l) = (k < bound) × (v ≡ item k) × InOrder k l

  abbrev pub claimed : Consumer A → ℕ → ℕ
  claimed (reading h) head = h
  claimed (leaving h v) head = h
  claimed c head = head

  -- An item that was claimed and has not been returned yet, or was dropped and not counted yet.
  abbrev pub held : Consumer A → ℕ
  held (reading h) = 1
  held (leaving h v) = 1
  held c = 0

  abbrev pub uncounted : Producer → ℕ
  uncounted (evicted t) = 1
  uncounted p = 0

  pub record IsSound (s : Ring A) : Type 0 where
    pub order : s.head ≤ s.tail
    pub lap : s.tail ≤ s.head + cap
    pub queued : (k : ℕ) → s.head ≤ k → k < s.tail → s.value (k % cap) ≡ item k
    pub knows : Knows s.producer s.tail s.head s.calls s.value
    pub sees : Sees s.consumer s.tail s.head s.value s.reader_active
    pub apart : Apart s.producer s.consumer
    pub in_order : InOrder (claimed s.consumer s.head) s.delivered
    pub count : length s.delivered + held s.consumer + s.dropped + uncounted s.producer ≡ s.head

  pub initial-IsSound : (blank : A) → IsSound (initial cap item blank)
  initial-IsSound blank = record {
    order = omega arith;
    lap = omega arith;
    queued = λ k lo hi. absurd (omega arith);
    knows = refl;
    sees = tt;
    apart = λ t h e. absurd (cc);
    in_order = tt;
    count = refl;
  }
