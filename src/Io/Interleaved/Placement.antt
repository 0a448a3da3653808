-- ===== src/Io/Interleaved/Placement.antt =====
-- The shards and the routes: where the messages and the books of a symbol are.
use mathlib.Core.Path.{subst}
use mathlib.Core.Option.{some-injective}
use low_latency_market_data.Common.{
  ℕ, zero, suc, ◌≡◌, ◌<◌, ◌≢◌, refl, sym, ap, ◌∙◌, List, [], none, some, Option-cases, inl, inr,
  Expected, ok, false, Bool-cases, ◌==◌, ==_iff, ◌||◌, ltb, leb, length, length-set,
  length-replicate, get_elem?, set, replicate, drop, All, All-get, All-replicate, All-snoc,
  All-drop, get_elem?-set_same, get_elem?-set_other, arith,
}
use low_latency_market_data.Common.Maps
use low_latency_market_data.Common.Maps.{nat_eq, list_eq}
use low_latency_market_data.Protocol.Messages.{
  Symbol, DecodedMessage, add, cancel, execute, replace,
}
use low_latency_market_data.Orderbook.Book.{Book, apply, has_order}
use low_latency_market_data.Concurrency.Queue
use low_latency_market_data.Concurrency.Queue.{Queue}
use low_latency_market_data.Io.ShardDemux.{
  DemuxError, QueuedMessage, Shard, Routes, Pipeline, shard_for_symbol, new_shard, new_pipeline,
  enqueue, route, OrderRoute, shard_queue_capacity, max_shards,
}
use low_latency_market_data.Io.ShardDemux.Routing.{
  IsRouted, IsRouted-erase, Leads, Routed, lost, found, route-Routed,
}
use low_latency_market_data.Io.ProcessShard.{
  clean_route, book_for, process_message, seq_num, publish_result,
}
use low_latency_market_data.Concurrency.GapDetector.{observe}

-- On a pipeline of `n` shards, the shard number `i` holds only what belongs there.
pub record IsHome (n i : ℕ) (s : Shard) : Type 0 where
  pub queued : All (λ qm. shard_for_symbol qm.symbol n ≡ i) s.queue.items
  pub books :
      (symbol : Symbol) (b : Book)
      → Maps.lookup symbol s.books ≡ some b
      → shard_for_symbol symbol n ≡ i

-- Every shard does, and the routes lead to the shards of their symbols.
pub record AllHome (n : ℕ) (p : Pipeline) : Type 0 where
  pub count : length p.shards ≡ n
  pub some_shard : 0 < n
  pub routed : IsRouted n p.order_route
  pub home : (i : ℕ) (s : Shard) → get_elem? p.shards i ≡ some s → IsHome n i s

pub enqueue-IsHome :
    (n i : ℕ) (qm : QueuedMessage) (s : Shard)
    → shard_for_symbol qm.symbol n ≡ i
    → IsHome n i s
    → IsHome n i (enqueue qm s)
unfolding Queue.push
enqueue-IsHome n i qm s mine h =
    elim (Bool-cases (leb shard_queue_capacity (length s.queue.items))) [
      | inl full ↦ rw full (record {
        queued =
            All-snoc (λ m. shard_for_symbol m.symbol n ≡ i) (drop 1 s.queue.items) qm
              (All-drop (λ m. shard_for_symbol m.symbol n ≡ i) 1 s.queue.items h.queued) mine;
        books = h.books;
      })
      | inr room ↦ rw room (record {
        queued = All-snoc (λ m. shard_for_symbol m.symbol n ≡ i) s.queue.items qm h.queued mine;
        books = h.books;
      })
    ]

-- A shard is put in the place of another one.
set-IsHome :
    (n k : ℕ) (shards : List Shard) (v : Shard)
    → IsHome n k v
    → ((i : ℕ) (s : Shard) → get_elem? shards i ≡ some s → IsHome n i s)
    → (i : ℕ) (s : Shard) → get_elem? (set shards k v) i ≡ some s
    → IsHome n i s
set-IsHome n k shards v new old i s e = elim (Bool-cases (k == i)) [
  | inl hit ↦
      let same = (==_iff k i).0 hit in
      let here : get_elem? (set shards k v) k ≡ some s =
        ap (λ j. get_elem? (set shards k v) j) same ∙ e in
      subst (λ j. IsHome n j s) same
        (subst (λ x. IsHome n k x) (get_elem?-set_same shards k v s here) new)
  | inr miss ↦
      let apart : k ≢ i = λ same. absurd (cc ((==_iff k i).1 same)) in
      old i s (sym (get_elem?-set_other shards k i v apart) ∙ e)
]

-- One shard is replaced.
pub put-AllHome :
    (n k : ℕ) (p : Pipeline) (v : Shard)
    → AllHome n p
    → IsHome n k v
    → AllHome n (record p { shards = set p.shards k v })
put-AllHome n k p v h new = record {
  count = length-set p.shards k v ∙ h.count;
  some_shard = h.some_shard;
  routed = h.routed;
  home = set-IsHome n k p.shards v new h.home;
}

-- The routes are.
pub reroute-AllHome :
    (n : ℕ) (p : Pipeline) (routes : Routes)
    → AllHome n p
    → IsRouted n routes
    → AllHome n (record p { order_route = routes })
reroute-AllHome n p routes h routed = record {
  count = h.count;
  some_shard = h.some_shard;
  routed = routed;
  home = h.home;
}

-- What the part of `demux` under the mutex gives, a route or none.
pub Routed-IsRouted :
    (n : ℕ) (routes : Routes) (m : DecodedMessage) (x : Expected DemuxError OrderRoute)
    (routes' : Routes)
    → IsRouted n routes
    → Routed n routes m x routes'
    → IsRouted n routes'
Routed-IsRouted n routes m x routes' h (lost gone) = h
Routed-IsRouted n routes m x routes' h (found r _ about good routed) = routed

pub Routed-Leads :
    (n : ℕ) (routes : Routes) (m : DecodedMessage) (x : Expected DemuxError OrderRoute)
    (routes' : Routes) (r : OrderRoute)
    → Routed n routes m x routes'
    → x ≡ ok r
    → Leads n (some r)
Routed-Leads n routes m x routes' r (lost gone) e = absurd (cc e)
Routed-Leads n routes m x routes' r (found r' _ about good routed) e =
    subst (λ y. Leads n (some y)) (cc e) good

pub route-AllHome :
    (n : ℕ) (p : Pipeline) (m : DecodedMessage) (x : Expected DemuxError OrderRoute)
    (routes : Routes)
    → AllHome n p
    → route (length p.shards) p.order_route m ≡ (x, routes)
    → Routed n p.order_route m x routes
route-AllHome n p m x routes h e =
    subst (λ y. Routed n p.order_route m y.0 y.1)
      (ap (λ k. route k p.order_route m) (sym h.count) ∙ e)
      (route-Routed n p.order_route m h.routed)

pub clean_route-IsRouted :
    (n : ℕ) (m : DecodedMessage) (b : Book) (routes : Routes)
    → IsRouted n routes
    → IsRouted n (clean_route m b routes)
unfolding clean_route
clean_route-IsRouted n (add m) b routes routed = routed
clean_route-IsRouted n (cancel m) b routes routed = routed
clean_route-IsRouted n (execute m) b routes routed = elim (Bool-cases (has_order b m.order_id)) [
  | inl still ↦ rw still routed
  | inr gone ↦ rw gone (IsRouted-erase n m.order_id routes routed)
]
clean_route-IsRouted n (replace m) b routes routed = routed

assign-books :
    (n i : ℕ) (symbol : Symbol) (b : Book) (s : Shard)
    → shard_for_symbol symbol n ≡ i
    → IsHome n i s
    → (t : Symbol) (c : Book) → Maps.lookup t (Maps.assign symbol b s.books) ≡ some c
    → shard_for_symbol t n ≡ i
assign-books n i symbol b s mine h t c e = elim (Bool-cases (list_eq.beq symbol t)) [
  | inl hit ↦ ap (λ x. shard_for_symbol x n) (sym ((list_eq.beq_iff symbol t).0 hit)) ∙ mine
  | inr miss ↦
      let found : Maps.lookup t s.books ≡ some c =
        sym (Maps.lookup-assign t symbol b s.books ∙ rw miss refl) ∙ e in
      h.books t c found
]

-- Processing a message leaves it at its shard.
pub process_message-IsHome :
    (n i t_dequeued t_book_updated : ℕ) (qm : QueuedMessage) (s : Shard) (routes : Routes)
    (s' : Shard) (routes' : Routes)
    → shard_for_symbol qm.symbol n ≡ i
    → IsHome n i s
    → process_message t_dequeued t_book_updated qm s routes ≡ some (s', routes')
    → IsHome n i s'
unfolding process_message
process_message-IsHome n i t_dequeued t_book_updated qm s routes s' routes' mine h run =
    elim (Option-cases (apply (book_for qm.symbol s.books) qm.message)) [
      | inl none_there ↦
          let stuck : process_message t_dequeued t_book_updated qm s routes ≡ none =
            rw none_there refl in
          absurd (cc (sym stuck ∙ run))
      | inr ((result, book), there) ↦
          let done : process_message t_dequeued t_book_updated qm s routes
              ≡ some (
                record s {
                  gap_detector = (observe s.gap_detector (seq_num qm.message)).1;
                  books = Maps.assign qm.symbol book s.books;
                  output_queue =
                      publish_result
                        (record qm {
                          trace = record (qm.trace) {
                            t_dequeued = t_dequeued;
                            t_book_updated = t_book_updated;
                          };
                        })
                        result s.output_queue;
                },
                clean_route qm.message book routes,
              ) =
            rw there refl in
          let e = some-injective _ _ (sym done ∙ run) in
          subst (λ x. IsHome n i x) (ap (λ x. x.0) e)
            (record { queued = h.queued; books = assign-books n i qm.symbol book s mine h })
    ]

new_shard-IsHome : (n i : ℕ) → IsHome n i new_shard
unfolding Maps.lookup
new_shard-IsHome n i = record { queued = tt; books = λ symbol b e. absurd (cc e) }

positive : (n : ℕ) → (n == 0 || ltb max_shards n) ≡ false → 0 < n
positive zero e = absurd (cc e)
positive (suc n) e = omega arith

pub new_pipeline-AllHome : (n : ℕ) (p : Pipeline) → new_pipeline n ≡ some p → AllHome n p
unfolding new_pipeline Maps.lookup
new_pipeline-AllHome n p new = elim (Bool-cases (n == 0 || ltb max_shards n)) [
  | inl bad ↦ let refused : new_pipeline n ≡ none = rw bad refl in absurd (cc (sym refused ∙ new))
  | inr good ↦
      let made : new_pipeline n
          ≡ some (record { shards = replicate n new_shard; order_route = [] }) =
        rw good refl in
      let e = some-injective _ _ (sym made ∙ new) in
      subst (λ x. AllHome n x) e
        (record {
          count = length-replicate n new_shard;
          some_shard = positive n good;
          routed = λ id. tt;
          home = λ i s here.
              subst (λ x. IsHome n i x)
                (All-get (λ x. new_shard ≡ x) (replicate n new_shard) i s
                  (All-replicate (λ x. new_shard ≡ x) n new_shard refl) here)
                (new_shard-IsHome n i);
        })
]
