-- ===== src/Concurrency/RingBuffer.antt =====
-- concurrency/spsc_ring_buffer.hpp: the ring buffer between one producer thread and one consumer
-- thread. A step is one access to a shared variable: each thread is at a place in its function, with
-- its local variables, and the accesses of the two interleave in one order (the sequentially
-- consistent executions of the code).
pub mod Slots
pub mod Invariant
pub mod Monotone
pub mod Moves
pub mod Pushes
pub mod Pops
pub mod Delivery
pub mod Alone
use low_latency_market_data.Common.{
  ℕ, ◌+◌, ◌-◌, ◌%◌, ◌≡◌, ◌≢◌, ◌≤◌, ◌<◌, List, [], ◌∷◌, Bool, true, false, ◌==◌, if◌then◌else◌,
}
use low_latency_market_data.Common.Words.{add64, sub64}

-- `push`, by the next access that it makes.
pub data Producer : Type 0 where
  idle : Producer
  called : Producer
  knows_tail : (tail : ℕ) → Producer
  knows_head : (tail head : ℕ) → Producer
  evicting : (tail head : ℕ) → Producer
  evicted : (tail : ℕ) → Producer
  waiting : (tail : ℕ) → Producer
  writing : (tail : ℕ) → Producer
  storing : (tail : ℕ) → Producer
  waking : Producer

-- `try_pop`
pub data Consumer (A : Type 0) : Type 0 where
  resting : Consumer A
  guessed : (head : ℕ) → Consumer A
  announcing : (head : ℕ) → Consumer A
  claiming : (head : ℕ) → Consumer A
  retracting : (head : ℕ) → Consumer A
  reading : (head : ℕ) → Consumer A
  leaving : (head : ℕ) (out : A) → Consumer A

-- The members, the two threads, the number of calls of `push` so far, and what `try_pop` returned
-- with the transition of `head_` that it claimed, the latest first.
pub record Ring (A : Type 0) : Type 0 where
  pub tail : ℕ
  pub head : ℕ
  pub dropped : ℕ
  pub wake_generation : ℕ
  pub value : ℕ → A
  pub reader_active : ℕ → Bool
  pub producer : Producer
  pub consumer : Consumer A
  pub calls : ℕ
  pub delivered : List (ℕ × A)

-- A write to one entry of an array.
abbrev pub write : {B : Type 0} → (ℕ → B) → ℕ → B → ℕ → B
write f i x j = if i == j then x else f j

-- `item k` is the argument of the call number k of `push`.
module _ {A : Type 0} (cap : ℕ) (item : ℕ → A) where
  abbrev pub initial : A → Ring A
  initial blank = record {
    tail = 0;
    head = 0;
    dropped = 0;
    wake_generation = 0;
    value = λ i. blank;
    reader_active = λ i. false;
    producer = idle;
    consumer = resting;
    calls = 0;
    delivered = [];
  }

  pub data Push : Ring A → Ring A → Type 0 where
    call :
        (s : Ring A)
        → s.producer ≡ idle
        → Push s (record s { producer = called; calls = s.calls + 1 })
    load_tail :
        (s : Ring A) → s.producer ≡ called → Push s (record s { producer = knows_tail s.tail })
    load_head :
        (s : Ring A) (t : ℕ)
        → s.producer ≡ knows_tail t
        → Push s (record s { producer = knows_head t s.head })
    full :
        (s : Ring A) (t h : ℕ)
        → s.producer ≡ knows_head t h
        → cap ≤ sub64 t h
        → Push s (record s { producer = evicting t h })
    room :
        (s : Ring A) (t h : ℕ)
        → s.producer ≡ knows_head t h
        → sub64 t h < cap
        → Push s (record s { producer = waiting t })
    evict :
        (s : Ring A) (t h : ℕ)
        → s.producer ≡ evicting t h
        → s.head ≡ h
        → Push s (record s { producer = evicted t; head = add64 h 1 })
    lose :
        (s : Ring A) (t h : ℕ)
        → s.producer ≡ evicting t h
        → s.head ≢ h
        → Push s (record s { producer = waiting t })
    count_drop :
        (s : Ring A) (t : ℕ)
        → s.producer ≡ evicted t
        → Push s (record s { producer = waiting t; dropped = add64 s.dropped 1 })
    spin :
        (s : Ring A) (t : ℕ) → s.producer ≡ waiting t → s.reader_active (t % cap) ≡ true → Push s s
    enter :
        (s : Ring A) (t : ℕ)
        → s.producer ≡ waiting t
        → s.reader_active (t % cap) ≡ false
        → Push s (record s { producer = writing t })
    write_value :
        (s : Ring A) (t : ℕ)
        → s.producer ≡ writing t
        → Push s (record s {
          producer = storing t;
          value = write s.value (t % cap) (item (s.calls - 1));
        })
    store_tail :
        (s : Ring A) (t : ℕ)
        → s.producer ≡ storing t
        → Push s (record s { producer = waking; tail = add64 t 1 })
    wake :
        (s : Ring A)
        → s.producer ≡ waking
        → Push s (record s { producer = idle; wake_generation = add64 s.wake_generation 1 })

  pub data Pop : Ring A → Ring A → Type 0 where
    guess : (s : Ring A) → s.consumer ≡ resting → Pop s (record s { consumer = guessed s.head })
    find_empty :
        (s : Ring A) (h : ℕ)
        → s.consumer ≡ guessed h
        → s.tail ≡ h
        → Pop s (record s { consumer = resting })
    find_item :
        (s : Ring A) (h : ℕ)
        → s.consumer ≡ guessed h
        → s.tail ≢ h
        → Pop s (record s { consumer = announcing h })
    announce :
        (s : Ring A) (h : ℕ)
        → s.consumer ≡ announcing h
        → Pop s (record s {
          consumer = claiming h;
          reader_active = write s.reader_active (h % cap) true;
        })
    claim :
        (s : Ring A) (h : ℕ)
        → s.consumer ≡ claiming h
        → s.head ≡ h
        → Pop s (record s { consumer = reading h; head = add64 h 1 })
    miss :
        (s : Ring A) (h : ℕ)
        → s.consumer ≡ claiming h
        → s.head ≢ h
        → Pop s (record s { consumer = retracting h })
    retract :
        (s : Ring A) (h : ℕ)
        → s.consumer ≡ retracting h
        → Pop s
            (record s { consumer = resting; reader_active = write s.reader_active (h % cap) false })
    read :
        (s : Ring A) (h : ℕ)
        → s.consumer ≡ reading h
        → Pop s (record s { consumer = leaving h (s.value (h % cap)) })
    leave :
        (s : Ring A) (h : ℕ) (v : A)
        → s.consumer ≡ leaving h v
        → Pop s (record s {
          consumer = resting;
          reader_active = write s.reader_active (h % cap) false;
          delivered = (h, v) ∷ s.delivered;
        })

  -- The states that the two threads can reach.
  pub data Reachable (blank : A) : Ring A → Type 0 where
    start : Reachable blank (initial blank)
    push : (s s' : Ring A) → Reachable blank s → Push s s' → Reachable blank s'
    pop : (s s' : Ring A) → Reachable blank s → Pop s s' → Reachable blank s'
