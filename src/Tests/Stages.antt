-- ===== src/Tests/Stages.antt =====
-- A stage with room for two items, on concrete interleavings of its two threads.
use low_latency_market_data.Common.{ℕ, ◌+◌, ◌*◌, ◌-◌, ◌≡◌, ◌≢◌, ◌≤◌, refl, true, arith, length}
use low_latency_market_data.Concurrency.RingBuffer.{
  call, load_tail, load_head, room, enter, write_value, store_tail, wake, guess, find_empty,
  find_item, announce, claim, read, leave,
}
use low_latency_market_data.Concurrency.RingBuffer.Invariant.{InOrder}
use low_latency_market_data.Io.Stage.{
  Stage, exited, Upstream, produce, finish, Downstream, go_on, take_item, end_drain, see_done,
  see_running, look, look_none, snapshot, recheck, recheck_none, Reached, start, up, down,
}
use low_latency_market_data.Io.Stage.Invariant.{unannounced}
use low_latency_market_data.Io.Stage.Exit.{exit_drained}
use low_latency_market_data.Io.Stage.Hang.{no_item_missed, Steps, IsStuck, wake_up_missed}
use low_latency_market_data.Io.Stage.Ending.{Run, stay, go, comes_to_exit, Run-bounded}

abbrev item : ℕ → ℕ
item i = i + 10

abbrev At : Stage ℕ → Type 0
At s = Reached 2 item 0 s

abbrev forth : {s s' : Stage ℕ} → At s → Upstream 2 item s s' → At s'
forth r step = up _ _ r step

abbrev back : {s s' : Stage ℕ} → At s → Downstream 2 item s s' → At s'
back r step = down _ _ r step

-- One item is pushed.
abbrev one_pushed : (s : Stage ℕ) × At s
one_pushed =
    let a = forth start (produce _ _ refl (call _ refl)) in
    let b = forth a (produce _ _ refl (load_tail _ refl)) in
    let c = forth b (produce _ _ refl (load_head _ 0 refl)) in
    let d = forth c (produce _ _ refl (room _ 0 0 refl (omega arith))) in
    let e = forth d (produce _ _ refl (enter _ 0 refl refl)) in
    let f = forth e (produce _ _ refl (write_value _ 0 refl)) in
    let g = forth f (produce _ _ refl (store_tail _ 0 refl)) in
    (_, forth g (produce _ _ refl (wake _ refl)))

-- The producer sets its flag, and the consumer takes the item and leaves.
abbrev left : (s : Stage ℕ) × At s
left =
    let a = forth one_pushed.1 (finish _ refl refl) in
    let b = back a (go_on _ _ (guess _ refl) refl refl) in
    let c = back b (go_on _ _ (find_item _ 0 refl (λ e. absurd (omega arith))) refl refl) in
    let d = back c (go_on _ _ (announce _ 0 refl) refl refl) in
    let e = back d (go_on _ _ (claim _ 0 refl refl) refl refl) in
    let f = back e (go_on _ _ (read _ 0 refl) refl refl) in
    let g = back f (take_item _ _ (leave _ 0 10 refl) refl refl) in
    let h = back g (go_on _ _ (guess _ refl) refl refl) in
    let i = back h (end_drain _ _ (find_empty _ 1 refl refl) refl refl) in
    let j = back i (go_on _ _ (guess _ refl) refl refl) in
    let k = back j (end_drain _ _ (find_empty _ 1 refl refl) refl refl) in
    let l = back k (see_done _ refl refl) in
    let m = back l (go_on _ _ (guess _ refl) refl refl) in
    (_, back m (end_drain _ _ (find_empty _ 1 refl refl) refl refl))

exit_drained_example :
    (left.0.done ≡ true)
    × (length left.0.ring.delivered + left.0.ring.dropped ≡ 1)
    × InOrder 2 item 1 left.0.ring.delivered
exit_drained_example = exit_drained 2 item 0 (omega arith) left.0 left.1 (omega arith) refl

-- Nothing was pushed, and the consumer comes to `wait_for_data`.
abbrev about_to_wait : (s : Stage ℕ) × At s
about_to_wait =
    let a = back start (go_on _ _ (guess _ refl) refl refl) in
    let b = back a (end_drain _ _ (find_empty _ 0 refl refl) refl refl) in
    (_, back b (see_running _ refl refl))

wake_up_missed_example :
    (s' : Stage ℕ) × Steps 2 item about_to_wait.0 s'
    × (s'.done ≡ true)
    × (s'.loop ≢ exited)
    × IsStuck 2 item s'
wake_up_missed_example = wake_up_missed 2 item about_to_wait.0 refl refl refl refl refl

abbrev waiting : (s : Stage ℕ) × At s
waiting =
    let a = back about_to_wait.1 (look _ refl) in
    let b = back a (look_none _ 0 refl refl) in
    let c = back b (snapshot _ refl) in
    let d = back c (recheck _ 0 refl) in (_, back d (recheck_none _ 0 0 refl refl))

no_item_missed_example :
    waiting.0.ring.tail ≤ waiting.0.ring.head + unannounced waiting.0.ring.producer
no_item_missed_example =
    no_item_missed 2 item 0 (omega arith) waiting.0 0 waiting.1 (omega arith) refl refl

-- The producer has set its flag behind one push.
abbrev flagged : (s : Stage ℕ) × At s
flagged = (_, forth one_pushed.1 (finish _ refl refl))

comes_to_exit_example : (k : ℕ) × (s' : Stage ℕ) × Run 2 item k flagged.0 s' × (s'.loop ≡ exited)
comes_to_exit_example =
    comes_to_exit 2 item 0 (omega arith) flagged.0 flagged.1 (omega arith) refl refl

Run-bounded_example : 1 ≤ 32 * (flagged.0.ring.tail - flagged.0.ring.head) + 35
Run-bounded_example =
    Run-bounded 2 item 0 (omega arith) 1 flagged.0 _ flagged.1 (omega arith) refl
      (go 0 flagged.0 _ _ (go_on _ _ (guess _ refl) refl refl) (stay _))
