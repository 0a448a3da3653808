-- ===== src/Io/FeedGenerator/Sequence.antt =====
-- The sequence numbers that the feed gives to one shard.
use mathlib.Core.Path.{subst}
use low_latency_market_data.Common.Maps
use low_latency_market_data.Common.{
  ==_iff, ℕ, suc, ◌+◌, ◌^◌, ◌≡◌, ◌≤◌, ◌<◌, refl, ap, ◌∙◌, List, [], ◌∷◌, Option, some, ◌>>=◌, Bool,
  false, ◌==◌, inl, inr, Bool-cases, length, All, if◌then◌else◌, arith,
}
use low_latency_market_data.Protocol.Messages.{IsSymbol}
use low_latency_market_data.Concurrency.GapDetector.{new_detector, observe_all, is_stale}
use low_latency_market_data.Concurrency.GapDetector.Feed.{numbers_after, in_order_live}
use low_latency_market_data.Io.ProcessShard.{seq_num}
use low_latency_market_data.Io.FeedGenerator.{
  FeedGenerator, Config, Draws, new_feed, last_seq, next_message,
}
use low_latency_market_data.Io.FeedGenerator.Chosen.{IsDraw, IsFeed, new_feed-IsFeed}
use low_latency_market_data.Io.FeedGenerator.NextMessage.{shard_of, next_message-Chosen}

module _ {D : Type 0} (ltd : D → D → Bool) (percent : ℕ → D) where
  -- The sequence numbers of the messages on symbols of shard `k`, for the draws of a run.
  pub numbers_for : ℕ → List (Draws D) → FeedGenerator D → Option (List ℕ × FeedGenerator D)
  numbers_for k [] f = some ([], f)
  numbers_for k (d ∷ ds) f = do
    (m, f') ← next_message ltd percent d f
    (ns, f'') ← numbers_for k ds f'
    some (if shard_of d f == k then seq_num m ∷ ns else ns, f'')

  abbrev Numbered : ℕ → List (Draws D) → ℕ → FeedGenerator D → Type 0
  Numbered k ds n f =
      (c : ℕ) × (f' : FeedGenerator D) × (numbers_for k ds f
        ≡ some (numbers_after (last_seq k f) c, f'))
      × (c ≤ length ds)
      × IsFeed (n + length ds) f'

  numbers_for-Numbered :
      (k : ℕ) (ds : List (Draws D)) (n : ℕ) (f : FeedGenerator D)
      → IsFeed n f
      → n + length ds + 1 < 2 ^ 64
      → All IsDraw ds
      → Numbered k ds n f
  unfolding numbers_for
  numbers_for-Numbered k [] n f well fits draws =
      (0, f, refl, omega arith, subst (λ j. IsFeed j f) (omega arith) well)
  numbers_for-Numbered k (d ∷ ds) n f well fits (draw, draws) =
      let (m, f', run, chosen) = next_message-Chosen ltd percent n f d well (omega arith) draw in
      let (c, f'', rest, le, well') =
        numbers_for-Numbered k ds (n + 1) f' chosen.well (omega arith) draws in
      let well_end : IsFeed (n + length (d ∷ ds)) f'' =
        subst (λ j. IsFeed j f'') (omega arith) well' in
      elim (Bool-cases (shard_of d f == k)) [
        | inl hit ↦
            let same = (==_iff (shard_of d f) k).0 hit in
            let last : last_seq k f' ≡ last_seq k f + 1 = ground (arith, chosen.seqs k) in
            let number : seq_num m ≡ last_seq k f + 1 =
              chosen.seq ∙ ap (λ j. last_seq j f + 1) same in
            (suc c, f'', rw (run, rest, hit, number, last) refl, omega arith, well_end)
        | inr miss ↦
            let last : last_seq k f' ≡ last_seq k f = ground (arith, chosen.seqs k) in
            (c, f'', rw (run, rest, miss, last) refl, omega arith, well_end)
      ]

  -- From a new feed with symbols and with shards, fewer than 2^64 - 1 messages, and draws within their bounds: the
  -- messages for one shard are numbered 1, 2, 3, ..., so that a shard that gets all of them never
  -- reports a gap and is not stale at the end.
  pub shard_stays_live :
      (k : ℕ) (ds : List (Draws D)) (config : Config D)
      → All IsSymbol config.symbols
      → 0 < length config.symbols
      → 0 < config.num_shards
      → length ds + 1 < 2 ^ 64
      → All IsDraw ds
      → (c : ℕ) × (f' : FeedGenerator D) × (numbers_for k ds (new_feed config)
          ≡ some (numbers_after 0 c, f'))
        × (is_stale (observe_all new_detector (numbers_after 0 c)) ≡ false)
        × ((observe_all new_detector (numbers_after 0 c)).gaps_total ≡ 0)
  unfolding Maps.lookup
  shard_stays_live k ds config valid some_symbol some_shard fits draws =
      let (c, f', run, le, well) =
        numbers_for-Numbered k ds 0 (new_feed config)
          (new_feed-IsFeed config valid some_symbol some_shard) (omega arith) draws in
      let (still, none_missed) = in_order_live c (omega arith) in (c, f', run, still, none_missed)
