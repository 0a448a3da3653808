-- ===== src/Io/PipelineRunner/Threads.antt =====
-- What is started is joined, in the order of the data flow.
use low_latency_market_data.Common.{
  ℕ, zero, suc, ◌+◌, ◌*◌, ◌≡◌, ◌≤◌, refl, sym, ap, ◌∙◌, List, [], ◌∷◌, ◌++◌, append-nil,
  append_assoc, Bool, true, false, if◌then◌else◌, arith, ◌<◌, some, none, ◌==◌, ◌||◌, ltb,
  length-replicate,
}
use low_latency_market_data.Io.ShardDemux.{new_shard, new_pipeline}
use low_latency_market_data.Io.PipelineRunner.Waits.{all_end, threads, all_waited, join_lem}
use low_latency_market_data.Io.PipelineRunner.{
  Thread, network_io, decoder, publisher, PipelineRunner, idle_runner, new_runner, hint,
  start_decoder, start_publisher, start_from, start, join, stop, destroy,
}

-- The decoder threads and the publisher threads of the shards from number `i`.
abbrev pub decoders : (count i : ℕ) → List Thread
decoders zero i = []
decoders (suc count) i = decoder i ∷ decoders count (i + 1)

abbrev pub publishers : (count i : ℕ) → List Thread
publishers zero i = []
publishers (suc count) i = publisher i ∷ publishers count (i + 1)

abbrev pub hints : Bool → ℕ → ℕ
hints enable_affinity n = if enable_affinity then n else 0

hints_add : (enable : Bool) (m n : ℕ) → hints enable m + hints enable n ≡ hints enable (m + n)
hints_add true m n = refl
hints_add false m n = refl

-- The tags that the decoder and the publisher threads of the shards from number `i` are to have: one for
-- each shard.
abbrev pub shard_tags : (count i : ℕ) → List (Thread × ℕ)
shard_tags zero i = []
shard_tags (suc count) i = (decoder i, 2 + i) ∷ (publisher i, 2 + i) ∷ shard_tags count (i + 1)

abbrev pub when : Bool → List (Thread × ℕ) → List (Thread × ℕ)
when enable_affinity tags = if enable_affinity then tags else []

when_nil : (enable : Bool) → when enable [] ≡ []
when_nil true = refl
when_nil false = refl

when_append :
    (enable : Bool) (xs ys : List (Thread × ℕ))
    → when enable xs ++ when enable ys ≡ when enable (xs ++ ys)
when_append true xs ys = refl
when_append false xs ys = refl

abbrev pub number_accepted : (Thread → ℕ → Bool) → List (Thread × ℕ) → ℕ
number_accepted accepted [] = 0
number_accepted accepted ((t, tag) ∷ rest) =
    (if accepted t tag then 1 else 0) + number_accepted accepted rest

number_accepted-snoc :
    (accepted : Thread → ℕ → Bool) (l : List (Thread × ℕ)) (t : Thread) (tag : ℕ)
    → number_accepted accepted (l ++ (t, tag) ∷ [])
      ≡ number_accepted accepted l + (if accepted t tag then 1 else 0)
number_accepted-snoc accepted [] t tag = omega arith
number_accepted-snoc accepted ((t', tag') ∷ l) t tag =
    let ih = number_accepted-snoc accepted l t tag in omega arith

module _ {K : Type 0} (accepted : Thread → ℕ → Bool) where
  -- What starting `count` shards adds to a runner.
  record Started (enable : Bool) (count i : ℕ) (r r' : PipelineRunner K) : Type 0 where
    shard_threads : r'.shard_threads ≡ r.shard_threads ++ decoders count i
    publisher_threads : r'.publisher_threads ≡ r.publisher_threads ++ publishers count i
    network_io_thread : r'.network_io_thread ≡ r.network_io_thread
    attempted : r'.affinity_hints_attempted ≡ r.affinity_hints_attempted + hints enable (2 * count)
    hinted : r'.hinted ≡ r.hinted ++ when enable (shard_tags count i)
    applied :
        r.affinity_hints_applied ≡ number_accepted accepted r.hinted
        → r'.affinity_hints_applied ≡ number_accepted accepted r'.hinted
    started : r'.started ≡ r.started
    joined : r'.joined ≡ r.joined
    waited : r'.waited ≡ r.waited

  one_shard :
      (enable : Bool) (i : ℕ) (r : PipelineRunner K)
      → Started enable 1 i r (start_publisher enable accepted i (start_decoder enable accepted i r))
  one_shard true i r = record {
    shard_threads = refl;
    publisher_threads = refl;
    network_io_thread = refl;
    attempted = omega arith;
    hinted = append_assoc r.hinted ((decoder i, 2 + i) ∷ []) ((publisher i, 2 + i) ∷ []);
    applied = λ e.
        let first = number_accepted-snoc accepted r.hinted (decoder i) (2 + i) in
        let second =
          number_accepted-snoc accepted (r.hinted ++ (decoder i, 2 + i) ∷ []) (publisher i)
            (2 + i) in
        ground arith;
    started = refl;
    joined = refl;
    waited = refl;
  }
  one_shard false i r = record {
    shard_threads = refl;
    publisher_threads = refl;
    network_io_thread = refl;
    attempted = omega arith;
    hinted = sym (append-nil r.hinted);
    applied = λ e. e;
    started = refl;
    joined = refl;
    waited = refl;
  }

  start_from-Started :
      (enable : Bool) (count i : ℕ) (r : PipelineRunner K)
      → Started enable count i r (start_from enable accepted count i r)
  unfolding start_from
  start_from-Started enable zero i r = record {
    shard_threads = sym (append-nil r.shard_threads);
    publisher_threads = sym (append-nil r.publisher_threads);
    network_io_thread = refl;
    attempted = ground arith;
    hinted = sym (ap (λ l. r.hinted ++ l) (when_nil enable) ∙ append-nil r.hinted);
    applied = λ e. e;
    started = refl;
    joined = refl;
    waited = refl;
  }
  start_from-Started enable (suc count) i r =
      let r₁ = start_publisher enable accepted i (start_decoder enable accepted i r) in
      let one = one_shard enable i r in
      let more = start_from-Started enable count (i + 1) r₁ in
      let h = hints_add enable 2 (2 * count) in
      let twice : 2 + 2 * count ≡ 2 * suc count = omega arith in
      record {
        shard_threads =
            more.shard_threads
            ∙ ap (λ l. l ++ decoders count (i + 1)) one.shard_threads
            ∙ append_assoc r.shard_threads (decoder i ∷ []) (decoders count (i + 1));
        publisher_threads =
            more.publisher_threads
            ∙ ap (λ l. l ++ publishers count (i + 1)) one.publisher_threads
            ∙ append_assoc r.publisher_threads (publisher i ∷ []) (publishers count (i + 1));
        network_io_thread = more.network_io_thread ∙ one.network_io_thread;
        attempted =
            let a = more.attempted in
            let b = one.attempted in let c = ap (hints enable) twice in omega arith;
        hinted =
            more.hinted
            ∙ ap (λ l. l ++ when enable (shard_tags count (i + 1))) one.hinted
            ∙ append_assoc r.hinted (when enable (shard_tags 1 i))
                (when enable (shard_tags count (i + 1)))
            ∙ ap (λ l. r.hinted ++ l)
                (when_append enable (shard_tags 1 i) (shard_tags count (i + 1)));
        applied = λ e. more.applied (one.applied e);
        started = more.started ∙ one.started;
        joined = more.joined ∙ one.joined;
        waited = more.waited ∙ one.waited;
      }

  -- A runner on `n` shards that has been started and stopped.
  pub record IsJoined (enable : Bool) (ends : Bool → Thread → Bool) (n : ℕ) (r : PipelineRunner K)
      : Type 0 where
    pub stop_requested : r.stop_requested ≡ true
    pub waited : r.waited ≡ network_io ∷ (decoders n 0 ++ publishers n 0)
    pub no_network : r.network_io_thread ≡ []
    pub no_shard : r.shard_threads ≡ []
    pub no_publisher : r.publisher_threads ≡ []
    pub again : join ends r ≡ some r
    pub destroyed : destroy ends r ≡ some r
    pub attempted : r.affinity_hints_attempted ≡ hints enable (1 + 2 * n)
    pub hinted : r.hinted ≡ when enable ((network_io, 1) ∷ shard_tags n 0)
    pub applied : r.affinity_hints_applied ≡ number_accepted accepted r.hinted

  -- The network thread is started, and no other.
  record Begun (enable : Bool) (r : PipelineRunner K) : Type 0 where
    shard_threads : r.shard_threads ≡ []
    publisher_threads : r.publisher_threads ≡ []
    network_io_thread : r.network_io_thread ≡ network_io ∷ []
    attempted : r.affinity_hints_attempted ≡ hints enable 1
    hinted : r.hinted ≡ when enable ((network_io, 1) ∷ [])
    applied : r.affinity_hints_applied ≡ number_accepted accepted r.hinted
    started : r.started ≡ true
    joined : r.joined ≡ false
    waited : r.waited ≡ []

  abbrev begin : Bool → ℕ → K → PipelineRunner K
  begin enable n null_sink =
      hint enable accepted network_io
        (record (idle_runner n null_sink) { started = true; network_io_thread = network_io ∷ [] })

  begin-Begun : (enable : Bool) (n : ℕ) (null_sink : K) → Begun enable (begin enable n null_sink)
  unfolding idle_runner
  begin-Begun true n null_sink = record {
    shard_threads = refl;
    publisher_threads = refl;
    network_io_thread = refl;
    attempted = refl;
    hinted = refl;
    applied = ground arith;
    started = refl;
    joined = refl;
    waited = refl;
  }
  begin-Begun false n null_sink = record {
    shard_threads = refl;
    publisher_threads = refl;
    network_io_thread = refl;
    attempted = refl;
    hinted = refl;
    applied = refl;
    started = refl;
    joined = refl;
    waited = refl;
  }

  stopped :
      (enable : Bool) (ends : Bool → Thread → Bool) (n : ℕ) (r r' : PipelineRunner K)
      → Begun enable r
      → Started enable n 0 r r'
      → (threads r' ≡ network_io ∷ (decoders n 0 ++ publishers n 0))
        × (r'.joined ≡ false)
        × IsJoined enable ends n (all_waited (record r' { stop_requested = true }))
  unfolding join destroy
  stopped enable ends n r r' b s =
      let on = s.started ∙ b.started in
      let network = s.network_io_thread ∙ b.network_io_thread in
      let shards = s.shard_threads ∙ ap (λ l. l ++ decoders n 0) b.shard_threads in
      let publishing = s.publisher_threads ∙ ap (λ l. l ++ publishers n 0) b.publisher_threads in
      let nobody = s.waited ∙ b.waited in
      let a = s.attempted in
      let a₀ = b.attempted in
      let h = hints_add enable 1 (2 * n) in
      let all : threads r' ≡ network_io ∷ (decoders n 0 ++ publishers n 0) =
        rw (network, shards, publishing) refl in
      (
        all,
        s.joined ∙ b.joined,
        record {
          stop_requested = refl;
          waited = rw nobody all;
          no_network = refl;
          no_shard = refl;
          no_publisher = refl;
          again = refl;
          destroyed = rw on refl;
          attempted = omega arith;
          hinted =
              s.hinted
              ∙ ap (λ l. l ++ when enable (shard_tags n 0)) b.hinted
              ∙ when_append enable ((network_io, 1) ∷ []) (shard_tags n 0);
          applied = s.applied b.applied;
        },
      )

  new_runner_lem :
      (n : ℕ) (null_sink : K)
      → 0 < n
      → n ≤ 16
      → new_runner n null_sink ≡ some (idle_runner n null_sink)
  unfolding new_runner new_pipeline
  new_runner_lem n null_sink some_shard few =
      let fits : (n == 0 || ltb 16 n) ≡ false = ground arith in
      rw fits (ap (λ k. some (idle_runner k null_sink)) (length-replicate n new_shard))

  -- A runner on 1 to 16 shards can be made; where affinity is on, starting it gives a hint for each
  -- thread, with the tag 1 for the network thread and 2 + i for the decoder and the publisher of shard
  -- i, and counts the hints and those that were accepted; where it is off, it gives none. To stop it is
  -- to set `stop_requested`, and to wait for every thread that it started, once, a thread behind the one
  -- whose flag it watches: it returns exactly where all of them come to their end once
  -- `stop_requested` is set. It then has no joinable thread left, and to join or to destroy it again
  -- does nothing.
  pub stop-IsJoined :
      (enable : Bool) (ends : Bool → Thread → Bool) (n : ℕ) (null_sink : K)
      → 0 < n
      → n ≤ 16
      → (r : PipelineRunner K) × (r' : PipelineRunner K) × (new_runner n null_sink ≡ some r)
        × (stop ends (start enable accepted r) ≡ (
            if all_end ends true (network_io ∷ (decoders n 0 ++ publishers n 0))
            then some r'
            else none))
        × IsJoined enable ends n r'
  unfolding start stop idle_runner
  stop-IsJoined enable ends n null_sink some_shard few =
      let begun = begin enable n null_sink in
      let begun' = start_from enable accepted n 0 begun in
      let (all, open_still, joined) =
        stopped enable ends n begun begun' (begin-Begun enable n null_sink)
          (start_from-Started enable n 0 begun) in
      (
        idle_runner n null_sink,
        _,
        new_runner_lem n null_sink some_shard few,
        join_lem ends (record begun' { stop_requested = true }) open_still
            ∙ ap
                (λ l.
                  if all_end ends true l
                  then some (all_waited (record begun' { stop_requested = true }))
                  else none)
                all,
        joined,
      )
