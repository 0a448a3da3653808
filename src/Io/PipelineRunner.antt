-- ===== src/Io/PipelineRunner.antt =====
-- io/pipeline_runner.cpp: the threads that run a pipeline, their affinity tags, and how they are started
-- and joined. What a thread does is in Io.NetworkReader and Io.Stage, where it may also sleep for good:
-- `ends` says which of the threads come to their end, by the flag `stop_requested_`. `K` are the
-- sinks; `accepted` is what `set_thread_affinity_tag` returns for a thread and a tag.
pub mod Waits
pub mod Threads
use low_latency_market_data.Common.{
  ℕ, zero, suc, ◌+◌, List, [], ◌∷◌, ◌++◌, Option, none, some, Bool, true, false, not, ◌&&◌, ltb,
  length, set, replicate, if◌then◌else◌, ◌>>=◌,
}
use low_latency_market_data.Io.ShardDemux.{Pipeline, new_pipeline}

pub data Thread : Type 0 where
  network_io : Thread
  decoder : (shard : ℕ) → Thread
  publisher : (shard : ℕ) → Thread

abbrev pub network_io_affinity_tag : ℕ
network_io_affinity_tag = 1

abbrev pub shard_affinity_tag_base : ℕ
shard_affinity_tag_base = 2

-- The tag that `start` gives to a thread.
abbrev pub tag_of : Thread → ℕ
tag_of network_io = network_io_affinity_tag
tag_of (decoder shard) = shard_affinity_tag_base + shard
tag_of (publisher shard) = shard_affinity_tag_base + shard

-- `running` are the joinable threads, in the order in which they were started, and `waited` those
-- that `join` has waited for, in that order; `hinted` are the calls of `set_thread_affinity_tag`.
pub record PipelineRunner (K : Type 0) : Type 0 where
  pub num_shards : ℕ
  pub delta_sinks : List K
  pub network_io_thread : List Thread
  pub shard_threads : List Thread
  pub publisher_threads : List Thread
  pub affinity_hints_applied : ℕ
  pub affinity_hints_attempted : ℕ
  pub stop_requested : Bool
  pub started : Bool
  pub joined : Bool
  pub waited : List Thread
  pub hinted : List (Thread × ℕ)

-- Waiting for the threads one after the other; `none` is a wait without end.
pub wait_all : (Bool → Thread → Bool) → Bool → List Thread → List Thread → Option (List Thread)
wait_all ends stop waited [] = some waited
wait_all ends stop waited (t ∷ ts) =
    let rest = wait_all ends stop (waited ++ t ∷ []) ts in if ends stop t then rest else none

module _ {K : Type 0} where
  -- The fields of a runner on `num_shards` shards.
  pub idle_runner : ℕ → K → PipelineRunner K
  idle_runner num_shards null_sink = record {
    num_shards = num_shards;
    delta_sinks = replicate num_shards null_sink;
    network_io_thread = [];
    shard_threads = [];
    publisher_threads = [];
    affinity_hints_applied = 0;
    affinity_hints_attempted = 0;
    stop_requested = false;
    started = false;
    joined = false;
    waited = [];
    hinted = [];
  }

  -- The constructor; `none` is the exception std::invalid_argument of ShardedPipeline.
  pub new_runner : ℕ → K → Option (PipelineRunner K)
  new_runner num_shards null_sink = do
    pipeline ← new_pipeline num_shards
    some (idle_runner (length pipeline.shards) null_sink)

  -- `none` is the exception std::out_of_range.

  pub set_delta_sink : ℕ → K → PipelineRunner K → Option (PipelineRunner K)
  set_delta_sink shard_index sink r =
      if ltb shard_index (length r.delta_sinks)
      then some (record r { delta_sinks = set r.delta_sinks shard_index sink })
      else none

  module _ (enable_affinity : Bool) (accepted : Thread → ℕ → Bool) where
    -- A hint for a thread that was just started.
    abbrev pub hint : Thread → PipelineRunner K → PipelineRunner K
    hint t r =
        if enable_affinity
        then record r {
          affinity_hints_attempted = r.affinity_hints_attempted + 1;
          affinity_hints_applied =
              if accepted t (tag_of t)
              then r.affinity_hints_applied + 1
              else r.affinity_hints_applied;
          hinted = r.hinted ++ (t, tag_of t) ∷ [];
        }
        else r

    abbrev pub start_decoder : ℕ → PipelineRunner K → PipelineRunner K
    start_decoder i r =
        hint (decoder i) (record r { shard_threads = r.shard_threads ++ decoder i ∷ [] })

    abbrev pub start_publisher : ℕ → PipelineRunner K → PipelineRunner K
    start_publisher i r =
        hint (publisher i)
          (record r { publisher_threads = r.publisher_threads ++ publisher i ∷ [] })

    -- The loop over the shards from number `i`, for `count` rounds.
    pub start_from : (count i : ℕ) → PipelineRunner K → PipelineRunner K
    start_from zero i r = r
    start_from (suc count) i r = start_from count (i + 1) (start_publisher i (start_decoder i r))

    pub start : PipelineRunner K → PipelineRunner K
    start r =
        start_from r.num_shards 0
          (hint network_io (record r { started = true; network_io_thread = network_io ∷ [] }))

  module _ (ends : Bool → Thread → Bool) where
    pub join : PipelineRunner K → Option (PipelineRunner K)
    join r = if r.joined then some r else do
      w ← wait_all ends r.stop_requested r.waited r.network_io_thread
      w' ← wait_all ends r.stop_requested w r.shard_threads
      w'' ← wait_all ends r.stop_requested w' r.publisher_threads
      some (record r {
        waited = w'';
        network_io_thread = [];
        shard_threads = [];
        publisher_threads = [];
        joined = true;
      })

    pub stop : PipelineRunner K → Option (PipelineRunner K)
    stop r = join (record r { stop_requested = true })

    -- The destructor.
    pub destroy : PipelineRunner K → Option (PipelineRunner K)
    destroy r = if r.started && not r.joined then stop r else some r
