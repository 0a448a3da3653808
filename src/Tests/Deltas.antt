-- ===== src/Tests/Deltas.antt =====
-- The publisher's sinks on concrete deltas.
use low_latency_market_data.Common.{◌+◌, ◌≡◌, refl, [], ◌∷◌, ◌++◌, ℤ, true, arith}
use native.Mathlib.Decide.{dec_lt}
use low_latency_market_data.Common.Text.{codes, decimal, signed_decimal}
use low_latency_market_data.Concurrency.Queue.{Queue}
use low_latency_market_data.Concurrency.LatencyTrace.{no_trace}
use low_latency_market_data.Publisher.BookDelta.{BookDelta}
use low_latency_market_data.Publisher.Format.{
  format_delta_line, symbol_view, side_text, quantity_text,
}
use low_latency_market_data.Publisher.Format.Injective.{
  HasNo, SameLine, format_delta_line_injective,
}
use low_latency_market_data.Publisher.Sinks.{
  file_sink, null_sink, drain_publisher_queue, LatencyRecording, latency_recording_sink,
}
use low_latency_market_data.Publisher.Sinks.Draining.{lines, drain-file, Recorded, drain-Recorded}
use low_latency_market_data.Tests.Data.{acme}

abbrev update : BookDelta
update = record {
  symbol = acme;
  side = 0;
  price = ℤ.pos 100;
  total_quantity = 5;
  seq_num = 7;
  timestamp = 9;
  trace = record {
    t_received = 1;
    t_decoded = 3;
    t_demuxed = 4;
    t_dequeued = 8;
    t_book_updated = 9;
  };
}

abbrev removal : BookDelta
removal = record update { seq_num = 8; total_quantity = 0 }

abbrev queued : Queue BookDelta
queued = record { items = update ∷ removal ∷ []; dropped = 0 }

-- The same change, traced otherwise.
abbrev retraced : BookDelta
retraced = record update { trace = no_trace }

acme-HasNo : HasNo b' ' acme
acme-HasNo =
    ((λ e. omega arith), ((λ e. omega arith), ((λ e. omega arith), ((λ e. omega arith), padding))))
  where
    padding : HasNo b' ' (0 ∷ 0 ∷ 0 ∷ 0 ∷ [])
    padding =
        ((λ e. omega arith), ((λ e. omega arith), ((λ e. omega arith), ((λ e. omega arith), tt))))

format_delta_line_injective_example : SameLine update retraced
unfolding format_delta_line
format_delta_line_injective_example =
    format_delta_line_injective update retraced acme-HasNo acme-HasNo refl

line_of_update : format_delta_line update ≡ codes "seq=7 ts=9 symbol=ACME side=BUY price=100 qty=5"
unfolding format_delta_line symbol_view side_text quantity_text decimal signed_decimal dec_lt
line_of_update = refl

drain-file_example :
    drain_publisher_queue file_sink queued (codes "x")
    ≡ (true, record queued { items = [] }, codes "x" ++ lines queued.items)
drain-file_example = drain-file queued (codes "x")

abbrev recording : LatencyRecording (Unit {0})
recording = record { inner = tt; samples = []; readings = 0 }

drain-Recorded_example :
    Recorded [] 2
      (drain_publisher_queue (latency_recording_sink (λ i. i + 10) null_sink) queued recording)
      (drain_publisher_queue null_sink queued tt)
drain-Recorded_example = drain-Recorded (λ i. i + 10) null_sink queued recording
