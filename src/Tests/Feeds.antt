-- ===== src/Tests/Feeds.antt =====
-- A feed of two symbols in two shards, with draws that go round.
use low_latency_market_data.Common.{
  ℕ, ◌*◌, ◌%◌, ◌≡◌, refl, List, [], ◌∷◌, some, Bool, false, ltb, All, arith,
}
use native.Mathlib.Nat.{mod-lt}
use low_latency_market_data.Protocol.Messages.{Symbol, IsSymbol}
use low_latency_market_data.Concurrency.GapDetector.{new_detector, observe_all, is_stale}
use low_latency_market_data.Concurrency.GapDetector.Feed.{numbers_after}
use low_latency_market_data.Io.FeedGenerator.{FeedGenerator, Config, Draws, Packet, new_feed, next}
use low_latency_market_data.Io.FeedGenerator.Chosen.{IsDraw}
use low_latency_market_data.Io.FeedGenerator.Accounts.{Sent, next-Sent, new_feed-IsCounted}
use low_latency_market_data.Io.FeedGenerator.Sequence.{numbers_for, shard_stays_live}
use low_latency_market_data.Io.NetworkReader.{Network, network_thread, new_network}
use low_latency_market_data.Io.NetworkReader.Drained.{IsDone, network_thread-IsDone}
use low_latency_market_data.Tests.Data.{acme}
use low_latency_market_data.Tests.Messages.{bid-IsAdd}
use low_latency_market_data.Tests.Shards.{two_shards, two_shards-IsRouted}

abbrev emca : Symbol
emca = 69 ∷ 77 ∷ 67 ∷ 65 ∷ 0 ∷ 0 ∷ 0 ∷ 0 ∷ []

abbrev two_symbols : Config ℕ
two_symbols = record {
  symbols = acme ∷ emca ∷ [];
  num_shards = 2;
  message_count = 3;
  packet_loss_rate = 10;
}

abbrev round_robin : ℕ → Draws ℕ
round_robin i = record {
  symbol_pick = λ n. i % n;
  action_pick = i * 40 % 100;
  order_pick = λ n. i % n;
  loss_pick = i * 30 % 100;
}

round_robin-IsDraw : (i : ℕ) → IsDraw (round_robin i)
round_robin-IsDraw i = record { symbol = λ n pos. mod-lt i pos; order = λ n pos. mod-lt i pos }

emca-IsSymbol : IsSymbol emca
emca-IsSymbol = (
  refl,
  (
    omega arith,
    (
      omega arith,
      (omega arith, (omega arith, (omega arith, (omega arith, (omega arith, (omega arith, tt)))))),
    ),
  ),
)

two_symbols-IsSymbol : All IsSymbol two_symbols.symbols
two_symbols-IsSymbol = (bid-IsAdd.symbol, (emca-IsSymbol, tt))

next-Sent_example :
    (r : Packet × FeedGenerator ℕ) × (next ltb (λ n. n) (round_robin 1) (new_feed two_symbols)
      ≡ some r)
    × Sent ltb (λ n. n) 0 (new_feed two_symbols) (round_robin 1) r
next-Sent_example =
    next-Sent ltb (λ n. n) 0 (new_feed two_symbols) (round_robin 1)
      (new_feed-IsCounted two_symbols two_symbols-IsSymbol (omega arith) (omega arith))
      (omega arith) (round_robin-IsDraw 1)

abbrev three_draws : List (Draws ℕ)
three_draws = round_robin 0 ∷ round_robin 1 ∷ round_robin 2 ∷ []

shard_stays_live_example :
    (c : ℕ) × (f' : FeedGenerator ℕ) × (numbers_for ltb
        (λ n. n)
        1
        three_draws
        (new_feed two_symbols)
      ≡ some (numbers_after 0 c, f'))
    × (is_stale (observe_all new_detector (numbers_after 0 c)) ≡ false)
    × ((observe_all new_detector (numbers_after 0 c)).gaps_total ≡ 0)
shard_stays_live_example =
    shard_stays_live ltb (λ n. n) 1 three_draws two_symbols two_symbols-IsSymbol (omega arith)
      (omega arith) (omega arith)
      (round_robin-IsDraw 0, (round_robin-IsDraw 1, (round_robin-IsDraw 2, tt)))

abbrev stop_at_two : ℕ → Bool
stop_at_two i = ltb 1 i

network_thread-IsDone_example :
    (w : Network ℕ) × (network_thread ltb
        (λ n. n)
        stop_at_two
        (λ i. i)
        round_robin
        3
        (new_network ltb
          (λ n. n)
          stop_at_two
          (λ i. i)
          round_robin
          (new_feed two_symbols)
          two_shards)
      ≡ some (some w))
    × IsDone 2 3 w
network_thread-IsDone_example =
    network_thread-IsDone ltb (λ n. n) stop_at_two (λ i. i) round_robin round_robin-IsDraw
      two_symbols two_shards two_symbols-IsSymbol (omega arith) (omega arith) (omega arith)
      (record { some_shard = omega arith; routed = two_shards-IsRouted })
