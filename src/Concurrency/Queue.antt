-- ===== src/Concurrency/Queue.antt =====
-- concurrency/spsc_ring_buffer.hpp, seen by calls that do not overlap: the items from head to tail,
-- the oldest first, and the count of the dropped ones.
use low_latency_market_data.Common.{ℕ, List, [], ◌∷◌, ◌++◌, leb, length, drop, if◌then◌else◌}
use low_latency_market_data.Common.Words.{add64}

pub record Queue (A : Type 0) : Type 0 where
  pub items : List A
  pub dropped : ℕ

module _ {A : Type 0} where
  abbrev pub empty_queue : Queue A
  empty_queue = record { items = []; dropped = 0 }

  -- `push`: a full queue loses its oldest item.
  unfoldable pub push : ℕ → A → Queue A → Queue A
  push capacity item q =
      if leb capacity (length q.items)
      then record { items = drop 1 q.items ++ item ∷ []; dropped = add64 q.dropped 1 }
      else record q { items = q.items ++ item ∷ [] }
