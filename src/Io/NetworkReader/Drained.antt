-- ===== src/Io/NetworkReader/Drained.antt =====
-- The network thread comes to its end.
use low_latency_market_data.Common.{
  ℕ, zero, suc, ◌+◌, ◌-◌, ◌*◌, ◌^◌, ◌≡◌, ◌≤◌, ◌<◌, refl, ap, ◌∙◌, List, [], ◌∷◌, ◌++◌, some, Bool,
  true, length, length-append, ltb, if◌then◌else◌, get_elem?, arith, All,
}
use mathlib.Core.Path.{subst}
use low_latency_market_data.Protocol.Messages.{IsSymbol}
use low_latency_market_data.Io.ShardDemux.{Pipeline}
use low_latency_market_data.Io.FeedGenerator.{Config, Draws, new_feed}
use low_latency_market_data.Io.FeedGenerator.Chosen.{IsDraw}
use low_latency_market_data.Io.FeedGenerator.Accounts.{IsCounted, new_feed-IsCounted}
use low_latency_market_data.Io.NetworkReader.{
  Network, notify_from, finish, run_until, network_thread, new_network,
}
use low_latency_market_data.Io.NetworkReader.Rounds.{
  IsPipeline, Turned, ended, suspended, resume-Turned,
}

-- The list counts up from 0.
abbrev pub CountsUp : ℕ → List ℕ → Type 0
CountsUp n l = (length l ≡ n) × ((i : ℕ) → i < n → get_elem? l i ≡ some i)

get_elem?-snoc :
    (l : List ℕ) (n i : ℕ)
    → i < length l + 1
    → get_elem? (l ++ n ∷ []) i ≡ (if ltb i (length l) then get_elem? l i else some n)
get_elem?-snoc [] n zero lt = refl
get_elem?-snoc [] n (suc i) lt = absurd (omega arith)
get_elem?-snoc (x ∷ l) n zero lt = ground arith
get_elem?-snoc (x ∷ l) n (suc i) lt = ground (arith, get_elem?-snoc l n i (omega arith))

CountsUp-snoc : (l : List ℕ) (n : ℕ) → CountsUp n l → CountsUp (n + 1) (l ++ n ∷ [])
CountsUp-snoc l n (len, up) =
    (omega (arith, length-append l (n ∷ [])), λ i lt. ground (arith, get_elem?-snoc l n i, up i))

notify_from-CountsUp :
    (count i : ℕ) (l : List ℕ) → CountsUp i l → CountsUp (i + count) (notify_from count i l)
notify_from-CountsUp zero i l up = subst (λ n. CountsUp n l) (omega arith) up
notify_from-CountsUp (suc count) i l up =
    subst (λ n. CountsUp n (notify_from count (i + 1) (l ++ i ∷ []))) (omega arith)
      (notify_from-CountsUp count (i + 1) (l ++ i ∷ []) (CountsUp-snoc l i up))

-- The network thread at its end, on a pipeline of `n` shards.
pub record IsDone {D : Type 0} (n message_count : ℕ) (w : Network D) : Type 0 where
  pub producer_done : w.producer_done ≡ true
  pub pending : w.pending ≡ []
  pub notified : CountsUp n w.notified
  pub pipeline : IsPipeline w.pipeline
  pub shards : length w.pipeline.shards ≡ n
  pub emitted : w.feed.emitted_count ≤ message_count
  pub dropped : w.feed.total_dropped ≤ w.feed.emitted_count

module _ {D : Type 0} (ltd : D → D → Bool) (percent : ℕ → D) (stop_requested : ℕ → Bool)
    (clock : ℕ → ℕ) (draws : ℕ → Draws D) (bounded : (i : ℕ) → IsDraw (draws i)) where
  module _ (n total : ℕ) (fits : total + 1 < 2 ^ 64) where
    -- The state of the thread before a turn, with `left` messages to come.
    record Going (left : ℕ) (w : Network D) : Type 0 where
      sent : ℕ
      counted : IsCounted sent w.feed
      count : w.feed.config.message_count ≡ total
      room : total ≡ sent + left
      pipeline : IsPipeline w.pipeline
      shards : length w.pipeline.shards ≡ n
      quiet : w.notified ≡ []
      pending : w.pending ≡ []

    finish-IsDone :
        (left : ℕ) (w : Network D)
        → Going left w
        → IsDone n total (record (finish ltd percent stop_requested clock draws w) { pending = [] })
    finish-IsDone left w g =
        let e = g.counted.emitted in
        let d = g.counted.dropped in
        let r = g.room in
        record {
          producer_done = refl;
          pending = refl;
          notified =
              rw (g.quiet, g.shards)
                (subst (λ k. CountsUp k (notify_from n 0 [])) (omega arith)
                  (notify_from-CountsUp n 0 [] (refl, λ i lt. absurd (omega arith))));
          pipeline = g.pipeline;
          shards = g.shards;
          emitted = omega arith;
          dropped = omega arith;
        }

    abbrev Ends : ℕ → List ℕ → Network D → Type 0
    Ends fuel pending w =
        (w' : Network D) × (run_until ltd percent stop_requested clock draws fuel pending w
          ≡ some (some w'))
        × IsDone n total w'

    Turned-IsDone :
        (fuel left : ℕ) (w w' : Network D) (g : Going left w)
        → ((t left' : ℕ) (v : Network D)
            → left' + 1 ≡ left
            → Going left' (record v { pending = [] })
            → Ends fuel (t ∷ []) v)
        → Turned ltd percent stop_requested clock draws g.sent w w'
        → Ends fuel w'.pending w'
    unfolding run_until
    Turned-IsDone fuel left w w' g again ended = rw g.pending ((_, refl, finish-IsDone left w g))
    Turned-IsDone fuel left w w' g again (suspended feed p more counted config good same) =
        let room = g.room in
        let count = g.count in
        rw g.pending (
          again (clock (4 * w.rounds + 3) + 1) (left - 1) _ (omega arith) (record {
            sent = g.sent + 1;
            counted = counted;
            count = ap (λ c. c.message_count) config ∙ g.count;
            room = omega arith;
            pipeline = good;
            shards = same ∙ g.shards;
            quiet = g.quiet;
            pending = refl;
          }))

    thread-IsDone :
        (fuel left : ℕ) (w : Network D)
        → left ≤ fuel
        → Going left w
        → (w' : Network D) × (network_thread ltd percent stop_requested clock draws fuel w
            ≡ some (some w'))
          × IsDone n total w'
    unfolding network_thread run_until
    thread-IsDone zero left w le g =
        let count = g.count in
        let (w', run, t) =
          resume-Turned ltd percent stop_requested clock draws bounded g.sent w g.counted g.pipeline
            (omega arith) in
        rw run (Turned-IsDone 0 left w w' g (λ t left' v e g'. absurd (omega arith)) t)
    thread-IsDone (suc fuel) left w le g =
        let count = g.count in
        let (w', run, t) =
          resume-Turned ltd percent stop_requested clock draws bounded g.sent w g.counted g.pipeline
            (omega arith) in
        rw run (
          Turned-IsDone (suc fuel) left w w' g
            (λ t left' v e g'.
              thread-IsDone fuel left' (record v { pending = [] }) (omega arith) g')
            t)

  -- The network thread, started on a new feed with symbols and with shards, and on a pipeline with shards whose routes
  -- lead to the shards of their symbols, with fewer than 2^64 - 1 messages to send and draws within
  -- their bounds, meets no undefined behaviour and ends after as many resumptions as there are
  -- messages, whenever it is told to stop: `producer_done` is set, no coroutine is left suspended,
  -- every shard's queue is notified, and the routes still lead to the shards of their symbols.
  pub network_thread-IsDone :
      (config : Config D) (p : Pipeline)
      → All IsSymbol config.symbols
      → 0 < length config.symbols
      → 0 < config.num_shards
      → config.message_count + 1 < 2 ^ 64
      → IsPipeline p
      → (w : Network D) × (network_thread ltd percent stop_requested clock draws
            config.message_count
            (new_network ltd percent stop_requested clock draws (new_feed config) p)
          ≡ some (some w))
        × IsDone (length p.shards) config.message_count w
  network_thread-IsDone config p valid some_symbol some_shard fits good =
      thread-IsDone (length p.shards) config.message_count fits config.message_count
        config.message_count _ (omega arith)
        (record {
          sent = 0;
          counted = new_feed-IsCounted config valid some_symbol some_shard;
          count = refl;
          room = omega arith;
          pipeline = good;
          shards = refl;
          quiet = refl;
          pending = refl;
        })
