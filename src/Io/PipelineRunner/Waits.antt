-- ===== src/Io/PipelineRunner/Waits.antt =====
-- What `join` waits for.
use low_latency_market_data.Common.{
  ◌≡◌, refl, ap, ◌∙◌, List, [], ◌∷◌, ◌++◌, append-nil, append_assoc, Option, none, some, ◌>>=◌,
  Bool, true, false, ◌&&◌, Bool-cases, inl, inr, if◌then◌else◌,
}
use low_latency_market_data.Io.PipelineRunner.{Thread, PipelineRunner, wait_all, join}

-- All of the threads come to their end.
abbrev pub all_end : (Bool → Thread → Bool) → Bool → List Thread → Bool
all_end ends flag [] = true
all_end ends flag (t ∷ ts) = ends flag t && all_end ends flag ts

all_end-append :
    (ends : Bool → Thread → Bool) (flag : Bool) (xs ys : List Thread)
    → all_end ends flag (xs ++ ys) ≡ (all_end ends flag xs && all_end ends flag ys)
all_end-append ends flag [] ys = refl
all_end-append ends flag (x ∷ xs) ys = elim (Bool-cases (ends flag x)) [
  | inl e ↦ rw e (all_end-append ends flag xs ys)
  | inr e ↦ rw e refl
]

-- What comes behind a wait for several threads.
wait_all-bind :
    {A : Type 0} (ends : Bool → Thread → Bool) (flag : Bool) (waited ts : List Thread)
    (k : List Thread → Option A)
    → (wait_all ends flag waited ts >>= k)
      ≡ (if all_end ends flag ts then k (waited ++ ts) else none)
unfolding wait_all
wait_all-bind ends flag waited [] k = rw (append-nil waited) refl
wait_all-bind ends flag waited (t ∷ ts) k = elim (Bool-cases (ends flag t)) [
  | inl e ↦ rw e (
      wait_all-bind ends flag (waited ++ t ∷ []) ts k
      ∙ ap (λ l. if all_end ends flag ts then k l else none) (append_assoc waited (t ∷ []) ts))
  | inr e ↦ rw e refl
]

three_ifs :
    {A : Type 0} (a b c : Bool) (x : Option A)
    → (if a then (if b then (if c then x else none) else none) else none)
      ≡ (if a && (b && c) then x else none)
three_ifs true true c x = refl
three_ifs true false c x = refl
three_ifs false b c x = refl

module _ {K : Type 0} where
  abbrev pub threads : PipelineRunner K → List Thread
  threads r = r.network_io_thread ++ (r.shard_threads ++ r.publisher_threads)

  -- The runner when all its threads are waited for.
  abbrev pub all_waited : PipelineRunner K → PipelineRunner K
  all_waited r = record r {
    waited = r.waited ++ threads r;
    network_io_thread = [];
    shard_threads = [];
    publisher_threads = [];
    joined = true;
  }

  pub join_lem :
      (ends : Bool → Thread → Bool) (r : PipelineRunner K)
      → r.joined ≡ false
      → join ends r
        ≡ (if all_end ends r.stop_requested (threads r) then some (all_waited r) else none)
  unfolding join
  join_lem ends r open_still =
      rw
        (
          open_still,
          wait_all-bind ends r.stop_requested r.waited r.network_io_thread,
          wait_all-bind ends r.stop_requested (r.waited ++ r.network_io_thread) r.shard_threads,
          wait_all-bind ends r.stop_requested ((r.waited ++ r.network_io_thread) ++ r.shard_threads)
              r.publisher_threads,
        )
        (three_ifs (all_end ends r.stop_requested r.network_io_thread)
            (all_end ends r.stop_requested r.shard_threads)
            (all_end ends r.stop_requested r.publisher_threads) _
          ∙ rw
              (
                all_end-append ends r.stop_requested r.network_io_thread
                    (r.shard_threads ++ r.publisher_threads),
                all_end-append ends r.stop_requested r.shard_threads r.publisher_threads,
                append_assoc (r.waited ++ r.network_io_thread) r.shard_threads r.publisher_threads,
                append_assoc r.waited r.network_io_thread (r.shard_threads ++ r.publisher_threads),
              )
              refl)
