-- ===== src/Io/NetworkReader.antt =====
-- io/async_network_reader.cpp and .hpp: the coroutine that reads the feed, and the reactor that resumes it
-- on the same thread. A suspended coroutine is an entry of the reactor's queue, by its wake time, and
-- to resume it is to run `read_packets_async` from behind its `co_await` to the next one, or to its end. The
-- flag `stop_requested`, the clock and the random draws are read by the number of the round. Sleeping
-- until the wake time changes no state. `none` is undefined behaviour.
pub mod Rounds
pub mod Drained
use low_latency_market_data.Common.{
  ℕ, zero, suc, ◌+◌, ◌*◌, List, [], ◌∷◌, ◌++◌, Option, none, some, Bool, true, false, ltb, length,
  if◌then◌else◌, ◌>>=◌,
}
use low_latency_market_data.Io.ShardDemux.{Pipeline, demux}
use low_latency_market_data.Io.FeedGenerator.{FeedGenerator, Draws, Packet, next}

-- What the network thread works on; `notified` are the shards on whose queue it called
-- `notify_waiters`, and `rounds` counts the turns of its loop.
pub record Network (D : Type 0) : Type 0 where
  pub feed : FeedGenerator D
  pub pipeline : Pipeline
  pub pending : List ℕ
  pub producer_done : Bool
  pub notified : List ℕ
  pub rounds : ℕ

-- `Reactor::schedule`: the earliest wake time comes first.
abbrev pub schedule : ℕ → List ℕ → List ℕ
schedule when [] = when ∷ []
schedule when (t ∷ pending) = if ltb when t then when ∷ t ∷ pending else t ∷ schedule when pending

-- The loop that notifies the shards from number `i`, for `count` rounds.
abbrev pub notify_from : (count i : ℕ) → List ℕ → List ℕ
notify_from zero i notified = notified
notify_from (suc count) i notified = notify_from count (i + 1) (notified ++ i ∷ [])

module _ {D : Type 0} (ltd : D → D → Bool) (percent : ℕ → D) (stop_requested : ℕ → Bool)
    (clock : ℕ → ℕ) (draws : ℕ → Draws D) where
  -- The end of the coroutine.
  abbrev pub finish : Network D → Network D
  finish w = record w {
    producer_done = true;
    notified = notify_from (length w.pipeline.shards) 0 w.notified;
  }

  -- A packet that was not lost goes to `demux`, whose result is ignored.
  abbrev pub receive : ℕ → Option (List ℕ) → Pipeline → Option Pipeline
  receive i none p = some p
  receive i (some bytes) p = do
    (result, p') ← demux p bytes (clock (4 * i)) (clock (4 * i + 1)) (clock (4 * i + 2))
    some p'

  -- `co_await WaitFor{reactor, kInterPacketDelay}`, one microsecond.
  abbrev pub wait_for : Network D → Network D
  wait_for w = record w {
    pending = schedule (clock (4 * w.rounds + 3) + 1) w.pending;
    rounds = w.rounds + 1;
  }

  pub after_next : Bool → Option (List ℕ) → FeedGenerator D → Network D → Option (Network D)
  after_next true bytes feed w = some (finish (record w { feed = feed }))
  after_next false bytes feed w = do
    p ← receive w.rounds bytes w.pipeline
    some (wait_for (record w { feed = feed; pipeline = p }))

  -- From the head of the loop to the next suspension, or to the end.
  pub resume : Network D → Option (Network D)
  resume w = if stop_requested w.rounds then some (finish w) else do
    (packet, feed) ← next ltd percent (draws w.rounds) w.feed
    after_next packet.exhausted packet.bytes feed w

  -- `Reactor::run_until`, for at most `fuel` resumptions: `none` inside is running out of fuel.
  pub run_until : (fuel : ℕ) → List ℕ → Network D → Option (Option (Network D))
  run_until fuel [] w = some (some w)
  run_until zero (t ∷ pending) w = some none
  run_until (suc fuel) (t ∷ pending) w = do
    w' ← resume (record w { pending = pending })
    run_until fuel w'.pending w'

  -- The network thread: the coroutine runs to its first suspension, and then the reactor.
  pub network_thread : ℕ → Network D → Option (Option (Network D))
  network_thread fuel w = do w' ← resume w; run_until fuel w'.pending w'

  abbrev pub new_network : FeedGenerator D → Pipeline → Network D
  new_network feed pipeline = record {
    feed = feed;
    pipeline = pipeline;
    pending = [];
    producer_done = false;
    notified = [];
    rounds = 0;
  }
