-- ===== src/Publisher/Sinks/Draining.antt =====
-- What reaches a sink, and what the recording of latencies adds.
use low_latency_market_data.Common.{
  ℕ, suc, ◌+◌, ◌≡◌, refl, sym, ap, ◌∙◌, List, [], ◌∷◌, ◌++◌, append-nil, append_assoc, Bool, true,
  false, not, ◌==◌, All, length, arith,
}
use low_latency_market_data.Common.Ints.{◌+ℤ◌, difference_chain}
use low_latency_market_data.Common.Text.{Text}
use low_latency_market_data.Concurrency.Queue.{Queue}
use low_latency_market_data.Concurrency.LatencyTrace.{LatencyTrace}
use low_latency_market_data.Publisher.BookDelta.{BookDelta}
use low_latency_market_data.Publisher.Format.{format_delta_line}
use low_latency_market_data.Publisher.Sinks.{
  DeltaSink, file_sink, drain_loop, drain_publisher_queue, LatencySample, sample, LatencyRecording,
  latency_recording_sink,
}

-- The deltas of a list, published one after the other.
publish_all : {S : Type 0} → DeltaSink S → List BookDelta → S → S
publish_all sink [] s = s
publish_all sink (delta ∷ deltas) s = publish_all sink deltas (sink.publish delta s)

drain_loop-true :
    {S : Type 0} (sink : DeltaSink S) (deltas : List BookDelta) (s : S)
    → drain_loop sink deltas true s ≡ (true, publish_all sink deltas s)
unfolding drain_loop publish_all
drain_loop-true sink [] s = refl
drain_loop-true sink (delta ∷ deltas) s = drain_loop-true sink deltas (sink.publish delta s)

drain_loop_lem :
    {S : Type 0} (sink : DeltaSink S) (deltas : List BookDelta) (s : S)
    → drain_loop sink deltas false s ≡ (not (length deltas == 0), publish_all sink deltas s)
unfolding drain_loop publish_all
drain_loop_lem sink [] s = refl
drain_loop_lem sink (delta ∷ deltas) s =
    let some_queued : (suc (length deltas) == 0) ≡ false = ground arith in
    rw some_queued (drain_loop-true sink deltas (sink.publish delta s))

pub lines : List BookDelta → Text
lines [] = []
lines (delta ∷ deltas) = format_delta_line delta ++ (b'\n' ∷ lines deltas)

publish_all-file :
    (deltas : List BookDelta) (out : Text) → publish_all file_sink deltas out ≡ out ++ lines deltas
unfolding publish_all lines file_sink
publish_all-file [] out = sym (append-nil out)
publish_all-file (delta ∷ deltas) out =
    publish_all-file deltas (out ++ (line ++ b'\n' ∷ []))
    ∙ append_assoc out (line ++ b'\n' ∷ []) (lines deltas)
    ∙ ap (λ t. out ++ t) (append_assoc line (b'\n' ∷ []) (lines deltas))
  where
    line : Text
    line = format_delta_line delta

-- Draining a queue into a file leaves the queue empty, appends one line for each queued delta, the
-- oldest first, and returns whether the queue held anything.
pub drain-file :
    (queue : Queue BookDelta) (out : Text)
    → drain_publisher_queue file_sink queue out
      ≡ (not (length queue.items == 0), record queue { items = [] }, out ++ lines queue.items)
unfolding drain_publisher_queue file_sink
drain-file queue out =
    rw (drain_loop_lem file_sink queue.items out, publish_all-file queue.items out) refl

-- A sample's stages, one after the other, make its two totals.
pub IsSum : LatencySample → Type 0
IsSum s =
    (s.receive_to_decode +ℤ s.decode_to_demux +ℤ s.input_queue_wait +ℤ s.book_update
      ≡ s.tick_to_book_update)
    × (s.tick_to_book_update +ℤ s.output_queue_wait +ℤ s.publish ≡ s.end_to_end)

sample-IsSum : (trace : LatencyTrace) (i j : ℕ) → IsSum (sample trace i j)
unfolding IsSum
sample-IsSum trace i j = (
  rw
      (
        difference_chain trace.t_received trace.t_decoded trace.t_demuxed,
        difference_chain trace.t_received trace.t_demuxed trace.t_dequeued,
      )
      (difference_chain trace.t_received trace.t_dequeued trace.t_book_updated),
  rw (difference_chain trace.t_received trace.t_book_updated i)
      (difference_chain trace.t_received i j),
)

publish_all-recording :
    {S : Type 0} (clock : ℕ → ℕ) (inner : DeltaSink S) (deltas : List BookDelta)
    (s : LatencyRecording S)
    → let s' = publish_all (latency_recording_sink clock inner) deltas s in
      (s'.inner ≡ publish_all inner deltas s.inner)
      × (new : List LatencySample) × (s'.samples ≡ s.samples ++ new)
      × (length new ≡ length deltas)
      × All IsSum new
unfolding publish_all latency_recording_sink
publish_all-recording clock inner [] s = (refl, [], sym (append-nil s.samples), refl, tt)
publish_all-recording clock inner (delta ∷ deltas) s =
    let new_sample = sample delta.trace (clock s.readings) (clock (s.readings + 1)) in
    let (same, new, samples, len, sums) =
      publish_all-recording clock inner deltas
        ((latency_recording_sink clock inner).publish delta s) in
    (
      same,
      new_sample ∷ new,
      samples ∙ append_assoc s.samples (new_sample ∷ []) new,
      ap suc len,
      (sample-IsSum _ _ _, sums),
    )

-- What draining a queue of `count` deltas through a LatencyRecordingSink did, next to draining it
-- into its inner sink; `old` are the samples before.
pub record Recorded {S : Type 0} (old : List LatencySample) (count : ℕ)
    (outer : Bool × Queue BookDelta × LatencyRecording S) (plain : Bool × Queue BookDelta × S)
    : Type 0 where
  pub did_work : outer.0 ≡ plain.0
  pub queue : outer.1 ≡ plain.1
  pub inner : outer.2.inner ≡ plain.2
  pub new : List LatencySample
  pub samples : outer.2.samples ≡ old ++ new
  pub one_each : length new ≡ count
  pub sums : All IsSum new

-- A sink behind a LatencyRecordingSink gets what it would get without it, in the same order, and
-- each delta leaves one more sample, whose stages sum up to its two totals.
pub drain-Recorded :
    {S : Type 0} (clock : ℕ → ℕ) (inner : DeltaSink S) (queue : Queue BookDelta)
    (s : LatencyRecording S)
    → Recorded s.samples
        (length queue.items)
        (drain_publisher_queue (latency_recording_sink clock inner) queue s)
        (drain_publisher_queue inner queue s.inner)
unfolding drain_publisher_queue latency_recording_sink
drain-Recorded clock inner queue s =
    let (same, new, samples, len, sums) = publish_all-recording clock inner queue.items s in
    rw
      (
        drain_loop_lem (latency_recording_sink clock inner) queue.items s,
        drain_loop_lem inner queue.items s.inner,
      )
      (record {
        did_work = refl;
        queue = refl;
        inner = same;
        new = new;
        samples = samples;
        one_each = len;
        sums = sums;
      })
