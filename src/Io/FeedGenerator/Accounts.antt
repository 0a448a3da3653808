-- ===== src/Io/FeedGenerator/Accounts.antt =====
-- What one call of `next` gives, and the counts that it keeps.
use low_latency_market_data.Common.{
  ℕ, ◌+◌, ◌^◌, ◌≡◌, ◌≤◌, ◌<◌, refl, ap, ◌∙◌, List, none, some, ok, Bool, true, false, inl, inr,
  Bool-cases, leb, length, length-replicate, replicate, All, arith,
}
use low_latency_market_data.Common.Words.{add64}
use low_latency_market_data.Protocol.Messages.{
  IsSymbol, DecodedMessage, add, cancel, execute, replace, IsMessage,
}
use low_latency_market_data.Protocol.Encoder.Wire.{wire_size}
use low_latency_market_data.Protocol.Decoder.{decode}
use low_latency_market_data.Protocol.RoundTrip.{decode-encode}
use low_latency_market_data.Io.FeedGenerator.{
  FeedGenerator, Config, Draws, Packet, new_feed, buffer_size, encoded, generate_next_message,
  in_transit, next, next_message,
}
use low_latency_market_data.Io.FeedGenerator.Chosen.{IsDraw, IsFeed, new_feed-IsFeed, Chosen}
use low_latency_market_data.Io.FeedGenerator.NextMessage.{shard_of, next_message-Chosen}

buffer_size_lem : (m : DecodedMessage) → wire_size m ≡ buffer_size m
buffer_size_lem (add m) = refl
buffer_size_lem (cancel m) = refl
buffer_size_lem (execute m) = refl
buffer_size_lem (replace m) = refl

decode-encoded :
    (m : DecodedMessage)
    → IsMessage m
    → (bytes : List ℕ) × (encoded m ≡ some bytes) × (decode bytes ≡ some (ok m))
unfolding encoded
decode-encoded m valid =
    let (bytes, run, there, rest) =
      decode-encode m (replicate (buffer_size m) 0) valid
        (omega (arith, length-replicate {A = ℕ} (buffer_size m) 0, buffer_size_lem m)) in
    rw run (bytes, refl, there)

module _ {D : Type 0} where
  pub record IsCounted (n : ℕ) (f : FeedGenerator D) : Type 0 where
    pub well : IsFeed n f
    pub emitted : f.emitted_count ≡ n
    pub dropped : f.total_dropped ≤ n

  pub new_feed-IsCounted :
      (config : Config D)
      → All IsSymbol config.symbols
      → 0 < length config.symbols
      → 0 < config.num_shards
      → IsCounted 0 (new_feed config)
  new_feed-IsCounted config valid some_symbol some_shard = record {
    well = new_feed-IsFeed config valid some_symbol some_shard;
    emitted = refl;
    dropped = omega arith;
  }

  -- The feed as `next` counts the message.
  abbrev pub begun : FeedGenerator D → FeedGenerator D
  begun f = record f { emitted_count = add64 f.emitted_count 1 }

  -- What `next` may give to a feed that has sent `n` messages, with the draws `d`. The message is that of
  -- `next_message`, whichever way the packet goes.
  pub data Sent (ltd : D → D → Bool) (percent : ℕ → D) (n : ℕ) (f : FeedGenerator D) (d : Draws D)
      : Packet × FeedGenerator D → Type 0 where
    over :
        f.config.message_count ≤ n
        → Sent ltd percent n f d (record { exhausted = true; bytes = none }, f)
    lost :
        (m : DecodedMessage) (f' : FeedGenerator D)
        → n < f.config.message_count
        → ltd d.loss_pick f.config.packet_loss_rate ≡ true
        → next_message ltd percent d (begun f) ≡ some (m, f')
        → Chosen n (shard_of d f) (begun f) m f'
        → IsCounted (n + 1) (record f' { total_dropped = f'.total_dropped + 1 })
        → f'.total_dropped ≡ f.total_dropped
        → Sent ltd percent n f d (
          record { exhausted = false; bytes = none },
          record f' { total_dropped = f'.total_dropped + 1 },
        )
    arrives :
        (m : DecodedMessage) (bytes : List ℕ) (f' : FeedGenerator D)
        → n < f.config.message_count
        → ltd d.loss_pick f.config.packet_loss_rate ≡ false
        → next_message ltd percent d (begun f) ≡ some (m, f')
        → Chosen n (shard_of d f) (begun f) m f'
        → IsCounted (n + 1) f'
        → f'.total_dropped ≡ f.total_dropped
        → decode bytes ≡ some (ok m)
        → Sent ltd percent n f d (record { exhausted = false; bytes = some bytes }, f')

  module _ (ltd : D → D → Bool) (percent : ℕ → D) where
    begun-IsFeed : (n : ℕ) (f : FeedGenerator D) → IsFeed n f → IsFeed n (begun f)
    begun-IsFeed n f w = record {
      symbols = w.symbols;
      some_symbol = w.some_symbol;
      some_shard = w.some_shard;
      table = w.table;
      given_out = w.given_out;
      id_bound = w.id_bound;
      seq_bound = w.seq_bound;
    }

    in_transit-Sent :
        (n : ℕ) (f f' : FeedGenerator D) (d : Draws D) (m : DecodedMessage) (bytes : List ℕ)
        → decode bytes ≡ some (ok m)
        → IsCounted n f
        → n < f.config.message_count
        → n + 2 < 2 ^ 64
        → next_message ltd percent d (begun f) ≡ some (m, f')
        → Chosen n (shard_of d f) (begun f) m f'
        → Sent ltd percent n f d (in_transit ltd percent d bytes f')
    in_transit-Sent n f f' d m bytes decoded counted more fits run c =
        let same = ap (λ x. ltd d.loss_pick x.packet_loss_rate) c.config in
        let e = c.emitted_count in
        let t = c.total_dropped in
        let e₀ = counted.emitted in
        let t₀ = counted.dropped in
        let dropped_next : add64 f'.total_dropped 1 ≡ f'.total_dropped + 1 = omega arith in
        elim (Bool-cases (ltd d.loss_pick f.config.packet_loss_rate)) [
          | inl gone ↦
              rw (same ∙ gone, dropped_next)
                (lost m f' more gone run c
                  (record {
                    well = record {
                      symbols = c.well.symbols;
                      some_symbol = c.well.some_symbol;
                      some_shard = c.well.some_shard;
                      table = c.well.table;
                      given_out = c.well.given_out;
                      id_bound = c.well.id_bound;
                      seq_bound = c.well.seq_bound;
                    };
                    emitted = omega arith;
                    dropped = omega arith;
                  })
                  t)
          | inr there ↦ rw (same ∙ there) (
              arrives m bytes f' more there run c
                (record { well = c.well; emitted = omega arith; dropped = omega arith }) t decoded)
        ]

    -- A well-formed feed, with symbols and shards, that has sent `n` of fewer than 2^64 - 1 messages,
    -- and draws within their bounds: `next` says that it is exhausted when all are sent, and changes
    -- nothing. Otherwise it counts one message more as sent, the one that `next_message` gives:
    -- well-formed, with the number after the last of its symbol's shard. Where the number drawn for
    -- the loss is below the loss rate, the packet has no bytes and one more is counted as dropped;
    -- otherwise its bytes decode to that message, and the dropped ones stay the same.
    pub next-Sent :
        (n : ℕ) (f : FeedGenerator D) (d : Draws D)
        → IsCounted n f
        → f.config.message_count + 1 < 2 ^ 64
        → IsDraw d
        → (r : Packet × FeedGenerator D) × (next ltd percent d f ≡ some r)
          × Sent ltd percent n f d r
    unfolding next generate_next_message
    next-Sent n f d counted fits draw =
        elim (Bool-cases (leb f.config.message_count f.emitted_count)) [
          | inl all_sent ↦ let e = counted.emitted in rw all_sent (_, refl, over (ground arith))
          | inr more ↦
              let e = counted.emitted in
              let below : n < f.config.message_count = ground arith in
              let (m, f', run, c) =
                next_message-Chosen ltd percent n (begun f) d (begun-IsFeed n f counted.well)
                  (omega arith) draw in
              let (bytes, encoding, decoded) = decode-encoded m c.valid in
              rw (more, run, encoding)
                (
                  _,
                  refl,
                  in_transit-Sent n f f' d m bytes decoded counted below (omega arith) run c,
                )
        ]
