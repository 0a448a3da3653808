-- ===== src/Io/NetworkReader/Rounds.antt =====
-- One turn of the reader's loop.
use low_latency_market_data.Common.{
  ℕ, ◌+◌, ◌*◌, ◌^◌, ◌≡◌, ◌<◌, refl, List, some, Bool, inl, inr, Bool-cases, length, length-set,
  Expected, ok,
}
use low_latency_market_data.Protocol.Messages.{DecodedMessage}
use low_latency_market_data.Protocol.Decoder.{DecodeError, decode}
use low_latency_market_data.Concurrency.LatencyTrace.{LatencyTrace}
use low_latency_market_data.Io.ShardDemux.{DemuxError, Pipeline}
use low_latency_market_data.Io.ShardDemux.Routing.{IsRouted}
use low_latency_market_data.Io.ShardDemux.Dispatch.{
  Demuxed, undecodable, unroutable, sent, demux_lem,
}
use low_latency_market_data.Io.FeedGenerator.{FeedGenerator, Draws, Packet}
use low_latency_market_data.Io.FeedGenerator.Chosen.{IsDraw}
use low_latency_market_data.Io.FeedGenerator.Accounts.{
  IsCounted, Sent, over, lost, arrives, next-Sent,
}
use low_latency_market_data.Io.NetworkReader.{
  Network, finish, receive, wait_for, after_next, resume,
}

-- A pipeline with shards whose routes lead to the shards of their symbols.
pub record IsPipeline (p : Pipeline) : Type 0 where
  pub some_shard : 0 < length p.shards
  pub routed : IsRouted (length p.shards) p.order_route

Demuxed-IsPipeline :
    (p : Pipeline) (trace : LatencyTrace) (d : Expected DecodeError DecodedMessage)
    (result : Expected DemuxError ℕ) (p' : Pipeline)
    → IsPipeline p
    → Demuxed p trace d result p'
    → IsPipeline p' × (length p'.shards ≡ length p.shards)
Demuxed-IsPipeline p trace d result p' w (undecodable e) = (w, refl)
Demuxed-IsPipeline p trace d result p' w (unroutable m gone) = (w, refl)
Demuxed-IsPipeline p trace d result p' w (sent m symbol s routes about there routed) =
    let same = length-set p.shards _ _ in
    (record { some_shard = rw same w.some_shard; routed = rw same routed }, same)

module _ {D : Type 0} (ltd : D → D → Bool) (percent : ℕ → D) (stop_requested : ℕ → Bool)
    (clock : ℕ → ℕ) (draws : ℕ → Draws D) where
  receive-IsPipeline :
      (i : ℕ) (bytes : List ℕ) (d : Expected DecodeError DecodedMessage) (p : Pipeline)
      → IsPipeline p
      → decode bytes ≡ some d
      → (p' : Pipeline) × (receive ltd percent stop_requested clock draws i (some bytes) p
          ≡ some p')
        × IsPipeline p'
        × (length p'.shards ≡ length p.shards)
  receive-IsPipeline i bytes d p w decoded =
      let (result, p', run, did) =
        demux_lem p bytes (clock (4 * i)) (clock (4 * i + 1)) (clock (4 * i + 2)) d w.some_shard
          w.routed decoded in
      let (w', same) = Demuxed-IsPipeline p _ d result p' w did in rw run (p', refl, w', same)

  -- What a turn does: the coroutine ends, or it is suspended again behind a packet.
  pub data Turned (n : ℕ) (w : Network D) : Network D → Type 0 where
    ended : Turned n w (finish ltd percent stop_requested clock draws w)
    suspended :
        (feed : FeedGenerator D) (p : Pipeline)
        → n < w.feed.config.message_count
        → IsCounted (n + 1) feed
        → feed.config ≡ w.feed.config
        → IsPipeline p
        → length p.shards ≡ length w.pipeline.shards
        → Turned n w (
            wait_for ltd percent stop_requested clock draws
              (record w { feed = feed; pipeline = p }))

  module _ (bounded : (i : ℕ) → IsDraw (draws i)) where
    after_next-Turned :
        (n : ℕ) (w : Network D) (packet : Packet) (feed : FeedGenerator D)
        → IsPipeline w.pipeline
        → Sent ltd percent n w.feed (draws w.rounds) (packet, feed)
        → (w' : Network D) × (after_next ltd percent stop_requested clock draws packet.exhausted
              packet.bytes feed w
            ≡ some w')
          × Turned n w w'
    unfolding after_next
    after_next-Turned n w packet feed good (over all_sent) = (_, refl, ended)
    after_next-Turned n w packet feed good (lost m _ more gone run chosen counted dropped) =
        (_, refl, suspended feed w.pipeline more counted chosen.config good refl)
    after_next-Turned n w packet feed good
          (arrives m bytes _ more there made chosen counted dropped decoded) =
        let (p', run, w', same) =
          receive-IsPipeline w.rounds bytes (ok m) w.pipeline good decoded in
        rw run (_, refl, suspended feed p' more counted chosen.config w' same)

    pub resume-Turned :
        (n : ℕ) (w : Network D)
        → IsCounted n w.feed
        → IsPipeline w.pipeline
        → w.feed.config.message_count + 1 < 2 ^ 64
        → (w' : Network D) × (resume ltd percent stop_requested clock draws w ≡ some w')
          × Turned n w w'
    unfolding resume
    resume-Turned n w counted good fits = elim (Bool-cases (stop_requested w.rounds)) [
      | inl stop ↦ rw stop (_, refl, ended)
      | inr on ↦
          let ((packet, feed), run, s) =
            next-Sent ltd percent n w.feed (draws w.rounds) counted fits (bounded w.rounds) in
          rw (on, run) (after_next-Turned n w packet feed good s)
    ]
