-- ===== src/Concurrency/RingBuffer/Monotone.antt =====
-- What the two threads know, when what they share changes.
use low_latency_market_data.Common.{ℕ, ◌%◌, ◌≡◌, ◌≤◌, List, [], ◌∷◌, Bool, false, ◌==◌, arith, refl}
use low_latency_market_data.Concurrency.RingBuffer.{
  Producer, idle, called, knows_tail, knows_head, evicting, evicted, waiting, writing, storing,
  waking, Consumer, resting, guessed, announcing, claiming, retracting, reading, leaving, write,
}
use low_latency_market_data.Concurrency.RingBuffer.Invariant.{Knows, Sees, InOrder, claimed}

module _ {A : Type 0} (cap : ℕ) (item : ℕ → A) where
  pub Sees-head :
      (c : Consumer A) (tail head head' : ℕ) (value : ℕ → A) (active : ℕ → Bool)
      → head ≤ head'
      → Sees cap item c tail head value active
      → Sees cap item c tail head' value active
  Sees-head resting tail head head' value active le s = tt
  Sees-head (guessed h) tail head head' value active le s = omega arith
  Sees-head (announcing h) tail head head' value active le s = (omega arith, s.1)
  Sees-head (claiming h) tail head head' value active le s = (omega arith, s.1, s.2)
  Sees-head (retracting h) tail head head' value active le s = tt
  Sees-head (reading h) tail head head' value active le s = (omega arith, s.1, s.2)
  Sees-head (leaving h v) tail head head' value active le s = (omega arith, s.1)

  pub Sees-tail :
      (c : Consumer A) (tail tail' head : ℕ) (value : ℕ → A) (active : ℕ → Bool)
      → tail ≤ tail'
      → Sees cap item c tail head value active
      → Sees cap item c tail' head value active
  Sees-tail resting tail tail' head value active le s = tt
  Sees-tail (guessed h) tail tail' head value active le s = s
  Sees-tail (announcing h) tail tail' head value active le s = (s.0, omega arith)
  Sees-tail (claiming h) tail tail' head value active le s = (s.0, omega arith, s.2)
  Sees-tail (retracting h) tail tail' head value active le s = tt
  Sees-tail (reading h) tail tail' head value active le s = s
  Sees-tail (leaving h v) tail tail' head value active le s = s

  -- A write to a slot that the consumer does not read.
  pub Sees-write :
      (c : Consumer A) (tail head : ℕ) (value : ℕ → A) (active : ℕ → Bool) (i : ℕ) (x : A)
      → ((h : ℕ) → c ≡ reading h → (i == (h % cap)) ≡ false)
      → Sees cap item c tail head value active
      → Sees cap item c tail head (write value i x) active
  Sees-write resting tail head value active i x off s = s
  Sees-write (guessed h) tail head value active i x off s = s
  Sees-write (announcing h) tail head value active i x off s = s
  Sees-write (claiming h) tail head value active i x off s = s
  Sees-write (retracting h) tail head value active i x off s = s
  Sees-write (reading h) tail head value active i x off s = (s.0, s.1, rw (off h refl) s.2)
  Sees-write (leaving h v) tail head value active i x off s = s

  pub InOrder-bound :
      (b b' : ℕ) (l : List (ℕ × A)) → b ≤ b' → InOrder cap item b l → InOrder cap item b' l
  InOrder-bound b b' [] le s = tt
  InOrder-bound b b' ((k, v) ∷ l) le s = (omega arith, s.1, s.2)

  pub claimed-head :
      (c : Consumer A) (head head' : ℕ) (l : List (ℕ × A))
      → head ≤ head'
      → InOrder cap item (claimed cap item c head) l
      → InOrder cap item (claimed cap item c head') l
  claimed-head resting head head' l le s = InOrder-bound head head' l le s
  claimed-head (guessed h) head head' l le s = InOrder-bound head head' l le s
  claimed-head (announcing h) head head' l le s = InOrder-bound head head' l le s
  claimed-head (claiming h) head head' l le s = InOrder-bound head head' l le s
  claimed-head (retracting h) head head' l le s = InOrder-bound head head' l le s
  claimed-head (reading h) head head' l le s = s
  claimed-head (leaving h v) head head' l le s = s

  pub Knows-head :
      (p : Producer) (tail head head' calls : ℕ) (value : ℕ → A)
      → head ≤ head'
      → Knows cap item p tail head calls value
      → Knows cap item p tail head' calls value
  Knows-head idle tail head head' calls value le k = k
  Knows-head called tail head head' calls value le k = k
  Knows-head (knows_tail t) tail head head' calls value le k = k
  Knows-head (knows_head t h) tail head head' calls value le (kt, kc, kh, kl, kb) =
      (kt, kc, omega arith, kl, kb)
  Knows-head (evicting t h) tail head head' calls value le (kt, kc, kh, kl) =
      (kt, kc, omega arith, kl)
  Knows-head (evicted t) tail head head' calls value le (kt, kc, kl) = (kt, kc, omega arith)
  Knows-head (waiting t) tail head head' calls value le (kt, kc, kl) = (kt, kc, omega arith)
  Knows-head (writing t) tail head head' calls value le (kt, kc, kl) = (kt, kc, omega arith)
  Knows-head (storing t) tail head head' calls value le (kt, kc, kl, kv) = (kt, kc, omega arith, kv)
  Knows-head waking tail head head' calls value le k = k

  pub Knows-calls :
      (p : Producer) (tail head calls : ℕ) (value : ℕ → A)
      → Knows cap item p tail head calls value
      → tail ≤ calls
  Knows-calls idle tail head calls value k = omega arith
  Knows-calls called tail head calls value k = omega arith
  Knows-calls (knows_tail t) tail head calls value k = omega arith
  Knows-calls (knows_head t h) tail head calls value k = omega arith
  Knows-calls (evicting t h) tail head calls value k = omega arith
  Knows-calls (evicted t) tail head calls value k = omega arith
  Knows-calls (waiting t) tail head calls value k = omega arith
  Knows-calls (writing t) tail head calls value k = omega arith
  Knows-calls (storing t) tail head calls value k = omega arith
  Knows-calls waking tail head calls value k = omega arith
