-- ===== src/Io/Stage.antt =====
-- io/pipeline_runner.cpp with wait_for_data and notify_waiters of concurrency/spsc_ring_buffer.hpp: one
-- queue between two threads, and how the second one waits for items and for the end. It is the input
-- queue of a shard, between the network thread and the decoder thread (`producer_done_`), or its
-- output queue, between the decoder thread and the publisher thread (`shard_decoder_done_[i]`). A step is
-- one access to shared memory, as in Concurrency.RingBuffer, whose steps are steps here.
pub mod Invariant
pub mod Pushing
pub mod Popping
pub mod Exit
pub mod Hang
pub mod Rank
pub mod Ending
use low_latency_market_data.Common.{
  ℕ, ◌≡◌, ◌≢◌, Option, none, some, Bool, true, false, if◌then◌else◌,
}
use low_latency_market_data.Common.Words.{add64}
use low_latency_market_data.Concurrency.RingBuffer.{
  idle, Ring, initial, Push, Pop, guess, find_empty, find_item, announce, claim, miss, retract,
  read, leave,
}

-- The consumer thread, by its place in the loop; `did_work` is what the running call of
-- `process_shard` or `drain_publisher_queue` will return. From `looking` to `blocked` it is in
-- `wait_for_data`, with what it has loaded.
pub data Loop : Type 0 where
  draining : (did_work : Bool) → Loop
  checking : Loop
  last_drain : (did_work : Bool) → Loop
  looking : Loop
  looked : (tail : ℕ) → Loop
  snapshotting : Loop
  rechecking : (observed_generation : ℕ) → Loop
  rechecked : (observed_generation tail : ℕ) → Loop
  blocked : (observed_generation : ℕ) → Loop
  exited : Loop

-- `done` is the flag of the producer thread, and `notified` says that it called `notify_waiters`.
pub record Stage (A : Type 0) : Type 0 where
  pub ring : Ring A
  pub done : Bool
  pub notified : Bool
  pub loop : Loop

abbrev pub in_drain : Loop → Bool
in_drain (draining did_work) = true
in_drain (last_drain did_work) = true
in_drain _ = false

-- `did_work = true`
abbrev pub with_work : Loop → Loop
with_work (draining did_work) = draining true
with_work (last_drain did_work) = last_drain true
with_work l = l

-- Where the loop goes when the call returns.
abbrev pub after_drain : Loop → Loop
after_drain (draining did_work) = if did_work then draining false else checking
after_drain (last_drain did_work) = if did_work then draining false else exited
after_drain l = l

abbrev pub notify_waiters : {A : Type 0} → Ring A → Ring A
notify_waiters r = record r { wake_generation = add64 r.wake_generation 1 }

module _ {A : Type 0} (cap : ℕ) (item : ℕ → A) where
  -- What `try_pop` returns with this access, if it returns.
  abbrev pub returned : {r r' : Ring A} → Pop cap item r r' → Option Bool
  returned (guess _ _) = none
  returned (find_empty _ _ _ _) = some false
  returned (find_item _ _ _ _) = none
  returned (announce _ _ _) = none
  returned (claim _ _ _ _) = none
  returned (miss _ _ _ _) = none
  returned (retract _ _ _) = some false
  returned (read _ _ _) = none
  returned (leave _ _ _ _) = some true

  abbrev pub initial_stage : A → Stage A
  initial_stage blank = record {
    ring = initial cap item blank;
    done = false;
    notified = false;
    loop = draining false;
  }

  -- The producer thread: it pushes, sets its flag, and notifies.
  pub data Upstream : Stage A → Stage A → Type 0 where
    produce :
        (s : Stage A) (r : Ring A)
        → s.done ≡ false
        → Push cap item s.ring r
        → Upstream s (record s { ring = r })
    finish :
        (s : Stage A)
        → s.done ≡ false
        → s.ring.producer ≡ idle
        → Upstream s (record s { done = true })
    notify :
        (s : Stage A)
        → s.done ≡ true
        → s.notified ≡ false
        → Upstream s (record s { ring = notify_waiters s.ring; notified = true })

  -- The consumer thread.
  pub data Downstream : Stage A → Stage A → Type 0 where
    go_on :
        (s : Stage A) (r : Ring A) (p : Pop cap item s.ring r)
        → in_drain s.loop ≡ true
        → returned p ≡ none
        → Downstream s (record s { ring = r })
    take_item :
        (s : Stage A) (r : Ring A) (p : Pop cap item s.ring r)
        → in_drain s.loop ≡ true
        → returned p ≡ some true
        → Downstream s (record s { ring = r; loop = with_work s.loop })
    end_drain :
        (s : Stage A) (r : Ring A) (p : Pop cap item s.ring r)
        → in_drain s.loop ≡ true
        → returned p ≡ some false
        → Downstream s (record s { ring = r; loop = after_drain s.loop })
    see_done :
        (s : Stage A)
        → s.loop ≡ checking
        → s.done ≡ true
        → Downstream s (record s { loop = last_drain false })
    see_running :
        (s : Stage A)
        → s.loop ≡ checking
        → s.done ≡ false
        → Downstream s (record s { loop = looking })
    look : (s : Stage A) → s.loop ≡ looking → Downstream s (record s { loop = looked s.ring.tail })
    look_some :
        (s : Stage A) (t : ℕ)
        → s.loop ≡ looked t
        → t ≢ s.ring.head
        → Downstream s (record s { loop = draining false })
    look_none :
        (s : Stage A) (t : ℕ)
        → s.loop ≡ looked t
        → t ≡ s.ring.head
        → Downstream s (record s { loop = snapshotting })
    snapshot :
        (s : Stage A)
        → s.loop ≡ snapshotting
        → Downstream s (record s { loop = rechecking s.ring.wake_generation })
    recheck :
        (s : Stage A) (g : ℕ)
        → s.loop ≡ rechecking g
        → Downstream s (record s { loop = rechecked g s.ring.tail })
    recheck_some :
        (s : Stage A) (g t : ℕ)
        → s.loop ≡ rechecked g t
        → t ≢ s.ring.head
        → Downstream s (record s { loop = draining false })
    recheck_none :
        (s : Stage A) (g t : ℕ)
        → s.loop ≡ rechecked g t
        → t ≡ s.ring.head
        → Downstream s (record s { loop = blocked g })
    wake_up :
        (s : Stage A) (g : ℕ)
        → s.loop ≡ blocked g
        → s.ring.wake_generation ≢ g
        → Downstream s (record s { loop = draining false })

  -- The states that the two threads reach.
  pub data Reached (blank : A) : Stage A → Type 0 where
    start : Reached blank (initial_stage blank)
    up : (s s' : Stage A) → Reached blank s → Upstream s s' → Reached blank s'
    down : (s s' : Stage A) → Reached blank s → Downstream s s' → Reached blank s'
