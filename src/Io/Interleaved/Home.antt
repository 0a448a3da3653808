-- ===== src/Io/Interleaved/Home.antt =====
-- Where the messages and the books of a symbol are while the threads run.
use mathlib.Core.Path.{subst}
use low_latency_market_data.Common.{ℕ, ◌≡◌, refl, sym, Option, none, some, ok, err, All}
use low_latency_market_data.Common.Maps.{nat_eq, list_eq}
use low_latency_market_data.Io.ShardDemux.{QueuedMessage, shard_for_symbol, enqueue}
use low_latency_market_data.Io.ProcessShard.{clean_route, book_for}
use low_latency_market_data.Io.Interleaved.{
  Threads, popped, Step, found_route, unroutable, delivered, applied, cleaned, Running, start, step,
}
use low_latency_market_data.Io.Interleaved.Placement.{
  AllHome, enqueue-IsHome, put-AllHome, reroute-AllHome, Routed-IsRouted, Routed-Leads,
  route-AllHome, clean_route-IsRouted, process_message-IsHome, new_pipeline-AllHome,
}

-- The message in the hand of `demux` is on its way to the shard of its symbol.
abbrev pub Heads : ℕ → Option (ℕ × QueuedMessage) → Type 0
Heads n none = Unit {0}
Heads n (some (i, qm)) = shard_for_symbol qm.symbol n ≡ i

pub record StaysHome (n : ℕ) (t : Threads) : Type 0 where
  pub all : AllHome n t.pipeline
  pub heads : Heads n t.in_demux

Step-StaysHome : (n : ℕ) (t t' : Threads) → StaysHome n t → Step t t' → StaysHome n t'
Step-StaysHome n t t' h (found_route raw m r routes trace idle good e) =
    let got = route-AllHome n t.pipeline m (ok r) routes h.all e in
    record {
      all =
          reroute-AllHome n t.pipeline routes h.all
            (Routed-IsRouted n t.pipeline.order_route m (ok r) routes h.all.routed got);
      heads = sym (Routed-Leads n t.pipeline.order_route m (ok r) routes r got refl);
    }
Step-StaysHome n t t' h (unroutable raw m x routes idle good e) =
    let got = route-AllHome n t.pipeline m (err x) routes h.all e in
    record {
      all =
          reroute-AllHome n t.pipeline routes h.all
            (Routed-IsRouted n t.pipeline.order_route m (err x) routes h.all.routed got);
      heads = h.heads;
    }
Step-StaysHome n t t' h (delivered i qm s held here) =
    let mine : shard_for_symbol qm.symbol n ≡ i = subst (Heads n) held h.heads in
    record {
      all =
          put-AllHome n i t.pipeline (enqueue qm s) h.all
            (enqueue-IsHome n i qm s mine (h.all.home i s here));
      heads = tt;
    }
Step-StaysHome n t t' h (applied i s qm rest a b s' routes idle here front run) =
    let home = h.all.home i s here in
    let queued = subst (λ l. All (λ m. shard_for_symbol m.symbol n ≡ i) l) front home.queued in
    record {
      all = put-AllHome n i t.pipeline s' h.all (
          process_message-IsHome n i a b qm (popped rest s) t.pipeline.order_route s' routes
            queued.0 (record { queued = queued.1; books = home.books }) run);
      heads = h.heads;
    }
Step-StaysHome n t t' h (cleaned i s symbol m pending here) = record {
  all =
      reroute-AllHome n t.pipeline (clean_route m (book_for symbol s.books) t.pipeline.order_route)
        h.all
        (clean_route-IsRouted n m (book_for symbol s.books) t.pipeline.order_route h.all.routed);
  heads = h.heads;
}

-- In every interleaving of the network thread with the decoder threads, from a new pipeline: the queued
-- messages and the books of a symbol are at the shard of that symbol and no other, the message that
-- `demux` has routed goes there, and the routes lead to the shards of their symbols.
pub Running-StaysHome : (n : ℕ) (t : Threads) → Running n t → StaysHome n t
Running-StaysHome n t (start p new) = record { all = new_pipeline-AllHome n p new; heads = tt }
Running-StaysHome n t (step before _ r one) =
    Step-StaysHome n before t (Running-StaysHome n before r) one
