-- ===== src/Tests/Threads.antt =====
-- A run of the ring buffer with two slots: the second item is being written while the first is read.
use low_latency_market_data.Common.{ℕ, ◌+◌, ◌-◌, ◌%◌, ◌≡◌, ◌≢◌, ◌≤◌, ◌<◌, refl, length, arith}
use low_latency_market_data.Concurrency.RingBuffer.{
  idle, Ring, Push, Pop, call, load_tail, load_head, room, enter, write_value, store_tail, wake,
  guess, find_item, announce, claim, read, leave, Reachable, start, push, pop,
}
use low_latency_market_data.Concurrency.RingBuffer.Invariant.{InOrder}
use low_latency_market_data.Concurrency.Queue
use low_latency_market_data.Concurrency.RingBuffer.Alone.{Alone, view, push-Alone}
use low_latency_market_data.Concurrency.RingBuffer.Delivery.{
  Reachable-IsSound, delivered-InOrder, queue_lem, no_torn_read, nothing_lost,
}

abbrev item : ℕ → ℕ
item k = k + 10

abbrev Reached : Ring ℕ → Type 0
Reached s = Reachable 2 item 0 s

-- The producer's accesses, from a state where it rests, on a queue with room.
module _ {s : Ring ℕ} where
  abbrev step : {s' : Ring ℕ} → Reached s → Push 2 item s s' → Reached s'
  step {s'} r p = push s s' r p

  abbrev take_step : {s' : Ring ℕ} → Reached s → Pop 2 item s s' → Reached s'
  take_step {s'} r p = pop s s' r p

abbrev pushed_once : (s : Ring ℕ) × Reached s
pushed_once =
    let a = step start (call _ refl) in
    let b = step a (load_tail _ refl) in
    let c = step b (load_head _ 0 refl) in
    let d = step c (room _ 0 0 refl (omega arith)) in
    let e = step d (enter _ 0 refl refl) in
    let f = step e (write_value _ 0 refl) in
    let g = step f (store_tail _ 0 refl) in (_, step g (wake _ refl))

-- The second push has come to its write, and the first pop to its read.
abbrev crossing : (s : Ring ℕ) × Reached s
crossing =
    let a = step pushed_once.1 (call _ refl) in
    let b = step a (load_tail _ refl) in
    let c = step b (load_head _ 1 refl) in
    let d = step c (room _ 1 0 refl (omega arith)) in
    let e = step d (enter _ 1 refl refl) in
    let f = take_step e (guess _ refl) in
    let g = take_step f (find_item _ 0 refl (λ e. absurd (omega arith))) in
    let h = take_step g (announce _ 0 refl) in (_, take_step h (claim _ 0 refl refl))

-- Both calls return.
abbrev both_returned : (s : Ring ℕ) × Reached s
both_returned =
    let a = step crossing.1 (write_value _ 1 refl) in
    let b = take_step a (read _ 0 refl) in
    let c = take_step b (leave _ 0 10 refl) in
    let d = step c (store_tail _ 1 refl) in (_, step d (wake _ refl))

delivered-InOrder_example : InOrder 2 item 1 both_returned.0.delivered
delivered-InOrder_example =
    delivered-InOrder 2 item 0 (omega arith) both_returned.0 both_returned.1 (omega arith)

queue_lem_example :
    (crossing.0.head ≤ crossing.0.tail)
    × (crossing.0.tail ≤ crossing.0.head + 2)
    × ((k : ℕ) → crossing.0.head ≤ k → k < crossing.0.tail → crossing.0.value (k % 2) ≡ item k)
queue_lem_example = queue_lem 2 item 0 (omega arith) crossing.0 crossing.1 (omega arith)

no_torn_read_example : 1 % 2 ≢ 0 % 2
no_torn_read_example =
    no_torn_read 2 item 0 (omega arith) crossing.0 crossing.1 (omega arith) 1 0 refl refl

nothing_lost_example :
    length both_returned.0.delivered
      + both_returned.0.dropped
      + (both_returned.0.tail - both_returned.0.head)
    ≡ 2
nothing_lost_example =
    nothing_lost 2 item 0 (omega arith) both_returned.0 both_returned.1 (omega arith) refl refl

push-Alone_example :
    (s' : Ring ℕ) × Alone 2 item pushed_once.0 s'
    × (s'.producer ≡ idle)
    × (view 2 item s' ≡ Queue.push 2 11 (view 2 item pushed_once.0))
push-Alone_example =
    push-Alone 2 item pushed_once.0 (omega arith)
      (Reachable-IsSound 2 item 0 (omega arith) pushed_once.0 pushed_once.1 (omega arith)) refl refl
      (omega arith)
