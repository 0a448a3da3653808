-- ===== src/Concurrency/GapDetector.antt =====
-- concurrency/gap_detector.hpp: one shard's check of its sequence numbers. Its atomics have one
-- writer, so its operations are functions on their values; the log line is left out.
pub mod Feed
pub mod Classify
use low_latency_market_data.Common.{
  ℕ, ◌+◌, List, [], ◌∷◌, Option, none, some, Bool, true, false, ltb, ◌==◌, if◌then◌else◌,
}
use low_latency_market_data.Common.Words.{add64}

pub data BookState : Type 0 where
  live stale : BookState

pub data SequenceObservation : Type 0 where
  in_order gap duplicate : SequenceObservation

pub record GapDetector : Type 0 where
  pub has_last : Bool
  pub last : ℕ
  pub state : BookState
  pub gaps_total : ℕ

pub new_detector : GapDetector
new_detector = record { has_last = false; last = 0; state = live; gaps_total = 0 }

-- `observe` once a first number has been seen.
unfoldable pub observe_next : GapDetector → ℕ → SequenceObservation × GapDetector
observe_next d seq_num =
    let expected = add64 d.last 1 in
    if seq_num == expected
    then (in_order, record d { last = seq_num })
    else if ltb seq_num expected
    then (duplicate, d)
    else (gap, record d { gaps_total = add64 d.gaps_total 1; state = stale; last = seq_num })

unfoldable pub observe : GapDetector → ℕ → SequenceObservation × GapDetector
observe d seq_num =
    if d.has_last
    then observe_next d seq_num
    else (in_order, record d { last = seq_num; has_last = true })

pub resync : GapDetector → ℕ → GapDetector
resync d seq_num = record d { last = seq_num; has_last = true; state = live }

unfoldable pub is_stale : GapDetector → Bool
is_stale d = elim d.state [ live ↦ false | stale ↦ true ]

pub last_seq_num : GapDetector → Option ℕ
last_seq_num d = if d.has_last then some d.last else none

-- The numbers of a feed, one after the other.
unfoldable pub observe_all : GapDetector → List ℕ → GapDetector
observe_all d [] = d
observe_all d (n ∷ ns) = observe_all (observe d n).1 ns
