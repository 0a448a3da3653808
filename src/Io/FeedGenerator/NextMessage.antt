-- ===== src/Io/FeedGenerator/NextMessage.antt =====
-- The next message of the feed.
use low_latency_market_data.Common.{
  ℕ, ◌+◌, ◌^◌, ◌≡◌, ◌<◌, refl, List, [], ◌∷◌, Option, none, some, Bool, false, ◌||◌, inl, inr,
  Bool-cases, length, get_elem?, All-get, arith,
}
use low_latency_market_data.Protocol.Messages.{Symbol, IsSymbol, DecodedMessage}
use low_latency_market_data.Io.ShardDemux.{shard_for_symbol, checked_shard}
use low_latency_market_data.Common.{get_elem?-below}
use low_latency_market_data.Io.FeedGenerator.{
  FeedGenerator, Draws, is_empty, symbol_idx, choose, next_message,
}
use low_latency_market_data.Io.FeedGenerator.Chosen.{
  IsDraw, IsFeed, Below, Chosen, add_order-Chosen, act_on-Chosen,
}

abbrev pub drawn_shard : Option Symbol → ℕ → ℕ
drawn_shard none num_shards = 0
drawn_shard (some symbol) num_shards = shard_for_symbol symbol num_shards

checked_shard_lem :
    (symbol : Symbol) (n : ℕ) → 0 < n → checked_shard symbol n ≡ some (shard_for_symbol symbol n)
unfolding checked_shard
checked_shard_lem symbol n pos = ground arith

module _ {D : Type 0} where
  -- The shard of the symbol that is drawn.
  abbrev pub shard_of : Draws D → FeedGenerator D → ℕ
  shard_of d f = drawn_shard (get_elem? f.config.symbols (symbol_idx d f)) f.config.num_shards

  pub choose-Chosen :
      (ltd : D → D → Bool) (percent : ℕ → D) (n : ℕ) (f : FeedGenerator D) (d : Draws D)
      (symbol : Symbol) (shard idx : ℕ) (resting : List ℕ)
      → IsFeed n f
      → n + 2 < 2 ^ 64
      → IsDraw d
      → IsSymbol symbol
      → Below f.next_order_id resting
      → (m : DecodedMessage) × (f' : FeedGenerator D) × (choose ltd percent d symbol shard idx
            resting f
          ≡ some (m, f'))
        × Chosen n shard f m f'
  unfolding choose
  choose-Chosen ltd percent n f d symbol shard idx resting well fits draw valid below =
      elim (Bool-cases (is_empty resting || ltd d.action_pick (percent 50))) [
        | inl new ↦
            rw new (_, _, refl, add_order-Chosen n shard f well fits symbol idx resting valid below)
        | inr old ↦
            let at_fits : d.order_pick (length resting) < length resting =
              draw.order (length resting) (some_rest resting old) in
            let (id, there) = get_elem?-below resting (d.order_pick (length resting)) at_fits in
            let known = All-get (λ i. i < f.next_order_id) resting _ id below there in
            rw (old, there)
              (
                _,
                _,
                refl,
                act_on-Chosen n shard f well fits ltd percent d.action_pick id _ idx resting known
                    below,
              )
      ]
    where
      some_rest :
          (ids : List ℕ) → (is_empty ids || ltd d.action_pick (percent 50)) ≡ false → 0 < length ids
      some_rest [] e = absurd (cc)
      some_rest (x ∷ xs) e = omega arith

  -- On a well-formed feed that has sent fewer than 2^64 - 2 messages, and draws within their bounds,
  -- the next message is there and is well-formed, its sequence number is the one after the last of
  -- its symbol's shard, no other shard's numbers move, and the feed is well-formed again.
  pub next_message-Chosen :
      (ltd : D → D → Bool) (percent : ℕ → D) (n : ℕ) (f : FeedGenerator D) (d : Draws D)
      → IsFeed n f
      → n + 2 < 2 ^ 64
      → IsDraw d
      → (m : DecodedMessage) × (f' : FeedGenerator D) × (next_message ltd percent d f
          ≡ some (m, f'))
        × Chosen n (shard_of d f) f m f'
  unfolding next_message
  next_message-Chosen ltd percent n f d well fits draw =
      let idx = symbol_idx d f in
      let in_range = draw.symbol (length f.config.symbols) well.some_symbol in
      let table = well.table in
      let (symbol, there) = get_elem?-below f.config.symbols idx in_range in
      let shard = checked_shard_lem symbol f.config.num_shards well.some_shard in
      let (resting, rests) = get_elem?-below f.resting_orders_per_symbol idx (omega arith) in
      let valid = All-get IsSymbol f.config.symbols idx symbol well.symbols there in
      let below =
        All-get (Below f.next_order_id) f.resting_orders_per_symbol idx resting well.given_out
          rests in
      let (m, f', run, chosen) =
        choose-Chosen ltd percent n f d symbol (shard_for_symbol symbol f.config.num_shards) idx
          resting well fits draw valid below in
      rw (there, shard, rests) (m, f', run, chosen)
