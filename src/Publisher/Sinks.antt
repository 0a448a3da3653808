-- ===== src/Publisher/Sinks.antt =====
-- publisher/publisher.cpp: the sinks, and the loop that takes a queue's deltas to one.
pub mod Draining
use low_latency_market_data.Common.{ℕ, ◌+◌, List, [], ◌∷◌, ◌++◌, Bool, true, false}
use low_latency_market_data.Common.Ints.{ℤ, difference}
use low_latency_market_data.Common.Text.{Text}
use low_latency_market_data.Concurrency.Queue
use low_latency_market_data.Concurrency.Queue.{Queue}
use low_latency_market_data.Concurrency.LatencyTrace.{LatencyTrace}
use low_latency_market_data.Publisher.BookDelta.{BookDelta}
use low_latency_market_data.Publisher.Format.{format_delta_line}

-- A class of sinks, whose objects are in states of type `S`.
pub record DeltaSink (S : Type 0) : Type 0 where
  pub publish : BookDelta → S → S

pub null_sink : DeltaSink (Unit {0})
null_sink = record { publish = λ delta s. s }

-- A file by its contents.
pub file_sink : DeltaSink Text
file_sink = record { publish = λ delta out. out ++ (format_delta_line delta ++ b'\n' ∷ []) }

-- `while (queue.try_pop(delta))`, with what `did_work` is so far.
drain_loop : {S : Type 0} → DeltaSink S → List BookDelta → Bool → S → Bool × S
drain_loop sink [] did_work s = (did_work, s)
drain_loop sink (delta ∷ deltas) did_work s = drain_loop sink deltas true (sink.publish delta s)

pub drain_publisher_queue :
    {S : Type 0} → DeltaSink S → Queue BookDelta → S → Bool × Queue BookDelta × S
unfolding drain_loop
drain_publisher_queue sink queue s =
    let (did_work, s') = drain_loop sink queue.items false s in
    (did_work, record queue { items = [] }, s')

-- Durations in ticks of the clock.
pub record LatencySample : Type 0 where
  pub receive_to_decode : ℤ
  pub decode_to_demux : ℤ
  pub input_queue_wait : ℤ
  pub book_update : ℤ
  pub output_queue_wait : ℤ
  pub publish : ℤ
  pub tick_to_book_update : ℤ
  pub end_to_end : ℤ

abbrev pub sample : LatencyTrace → (t_delta_dequeued t_published : ℕ) → LatencySample
sample trace t_delta_dequeued t_published = record {
  receive_to_decode = difference trace.t_decoded trace.t_received;
  decode_to_demux = difference trace.t_demuxed trace.t_decoded;
  input_queue_wait = difference trace.t_dequeued trace.t_demuxed;
  book_update = difference trace.t_book_updated trace.t_dequeued;
  output_queue_wait = difference t_delta_dequeued trace.t_book_updated;
  publish = difference t_published t_delta_dequeued;
  tick_to_book_update = difference trace.t_book_updated trace.t_received;
  end_to_end = difference t_published trace.t_received;
}

-- The state of a LatencyRecordingSink around a sink in a state of type `S`, and the number of times
-- that it has read the clock.
pub record LatencyRecording (S : Type 0) : Type 0 where
  pub inner : S
  pub samples : List LatencySample
  pub readings : ℕ

-- `clock i` is the reading number i.
pub latency_recording_sink : {S : Type 0} → (ℕ → ℕ) → DeltaSink S → DeltaSink (LatencyRecording S)
latency_recording_sink clock inner = record {
  publish = λ delta s. record {
    inner = inner.publish delta s.inner;
    samples = s.samples ++ sample delta.trace (clock s.readings) (clock (s.readings + 1)) ∷ [];
    readings = s.readings + 2;
  };
}
