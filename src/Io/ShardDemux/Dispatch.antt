-- ===== src/Io/ShardDemux/Dispatch.antt =====
-- What one call of `demux` does.
use native.Mathlib.Nat.{mod-lt}
use low_latency_market_data.Common.{
  ℕ, ◌<◌, ◌≡◌, refl, List, Option, some, Expected, ok, err, length, get_elem?, get_elem?-below, set,
}
use low_latency_market_data.Protocol.Messages.{Symbol, DecodedMessage, hash_symbol}
use low_latency_market_data.Protocol.Decoder.{DecodeError, decode}
use low_latency_market_data.Concurrency.LatencyTrace.{LatencyTrace, no_trace}
use low_latency_market_data.Io.ShardDemux.{
  DemuxError, unroutable_order_id, decode_failed, Shard, OrderRoute, Routes, Pipeline,
  shard_for_symbol, route, enqueue, deliver, demux,
}
use low_latency_market_data.Io.ShardDemux.Routing.{
  IsRouted, IsAbout, IsLost, Routed, lost, found, route-Routed,
}

-- What a call does with what it decoded.
pub data Demuxed (p : Pipeline) (trace : LatencyTrace)
    : Expected DecodeError DecodedMessage → Expected DemuxError ℕ → Pipeline → Type 0 where
  undecodable : (e : DecodeError) → Demuxed p trace (err e) (err decode_failed) p
  unroutable :
      (m : DecodedMessage)
      → IsLost p.order_route m
      → Demuxed p trace (ok m) (err unroutable_order_id) p
  sent :
      (m : DecodedMessage) (symbol : Symbol) (s : Shard) (routes : Routes)
      → IsAbout p.order_route m symbol
      → get_elem? p.shards (shard_for_symbol symbol (length p.shards)) ≡ some s
      → IsRouted (length p.shards) routes
      → Demuxed p trace (ok m) (ok (shard_for_symbol symbol (length p.shards))) (record {
        shards =
            set p.shards
              (shard_for_symbol symbol (length p.shards))
              (enqueue (record { symbol = symbol; message = m; trace = trace }) s);
        order_route = routes;
      })

abbrev pub Done :
    Pipeline
    → LatencyTrace
    → Expected DecodeError DecodedMessage
    → Option (Expected DemuxError ℕ × Pipeline)
    → Type 0
Done p trace d x =
    (result : Expected DemuxError ℕ) × (p' : Pipeline) × (x ≡ some (result, p'))
    × Demuxed p trace d result p'

deliver-Demuxed :
    (p : Pipeline) (m : DecodedMessage) (trace : LatencyTrace) (x : Expected DemuxError OrderRoute)
    (routes : Routes)
    → 0 < length p.shards
    → Routed (length p.shards) p.order_route m x routes
    → Done p trace (ok m) (deliver p m trace (x, routes))
unfolding deliver shard_for_symbol
deliver-Demuxed p m trace x routes some_shard (lost gone) =
    (err unroutable_order_id, p, refl, unroutable m gone)
deliver-Demuxed p m trace x routes some_shard (found r _ about good routed) =
    let (s, there) =
      get_elem?-below p.shards (shard_for_symbol r.symbol (length p.shards)) (below r.symbol) in
    rw (good, there) (_, _, refl, sent m r.symbol s routes about there routed)
  where
    below : (symbol : Symbol) → shard_for_symbol symbol (length p.shards) < length p.shards
    below symbol = mod-lt (hash_symbol symbol) some_shard

-- On a pipeline with shards, whose routes lead to the shards of their symbols, a call whose bytes do
-- not decode, or whose message names an order without a route, is refused and changes nothing; every
-- other message is put on the queue of the shard of the symbol that it is about, and the routes still
-- lead to the shards of their symbols.
pub demux_lem :
    (p : Pipeline) (raw : List ℕ) (t_received t_decoded t_demuxed : ℕ)
    (d : Expected DecodeError DecodedMessage)
    → 0 < length p.shards
    → IsRouted (length p.shards) p.order_route
    → decode raw ≡ some d
    → Done p
        (record no_trace { t_received = t_received; t_decoded = t_decoded; t_demuxed = t_demuxed })
        d
        (demux p raw t_received t_decoded t_demuxed)
unfolding demux
demux_lem p raw t_received t_decoded t_demuxed (err e) some_shard routed decoded =
    rw decoded (err decode_failed, p, refl, undecodable e)
demux_lem p raw t_received t_decoded t_demuxed (ok m) some_shard routed decoded = rw decoded (
    deliver-Demuxed p m
      (record no_trace { t_received = t_received; t_decoded = t_decoded; t_demuxed = t_demuxed })
      (route (length p.shards) p.order_route m).0 (route (length p.shards) p.order_route m).1
      some_shard (route-Routed (length p.shards) p.order_route m routed))
