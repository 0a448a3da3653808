-- ===== src/Io/ShardDemux/Routing.antt =====
-- Where `demux` sends a message.
use mathlib.Core.Path.{subst}
use low_latency_market_data.Common.{
  ℕ, ◌≡◌, refl, Option, none, some, Expected, ok, err, ◌==◌, Bool-cases, Option-cases, inl, inr,
}
use low_latency_market_data.Common.Maps
use low_latency_market_data.Common.Maps.{nat_eq}
use low_latency_market_data.Protocol.Messages.{
  Symbol, DecodedMessage, add, cancel, execute, replace,
}
use low_latency_market_data.Io.ShardDemux.{
  DemuxError, unroutable_order_id, OrderRoute, Routes, shard_for_symbol, route, route_found,
  replace_found, cancel_found,
}

-- A route leads to the shard of its symbol.
abbrev pub Leads : ℕ → Option OrderRoute → Type 0
Leads n none = Unit {0}
Leads n (some r) = r.shard_index ≡ shard_for_symbol r.symbol n

abbrev pub IsRouted : ℕ → Routes → Type 0
IsRouted n routes = (id : ℕ) → Leads n (Maps.lookup id routes)

-- The symbol that a message is about: its own, or that of the order which it names.
abbrev pub IsAbout : Routes → DecodedMessage → Symbol → Type 0
IsAbout routes (add m) symbol = symbol ≡ m.symbol
IsAbout routes (cancel m) symbol =
    (r : OrderRoute) × (Maps.lookup m.order_id routes ≡ some r) × (r.symbol ≡ symbol)
IsAbout routes (execute m) symbol =
    (r : OrderRoute) × (Maps.lookup m.order_id routes ≡ some r) × (r.symbol ≡ symbol)
IsAbout routes (replace m) symbol =
    (r : OrderRoute) × (Maps.lookup m.old_order_id routes ≡ some r) × (r.symbol ≡ symbol)

-- A message that names an order which has no route.
abbrev pub IsLost : Routes → DecodedMessage → Type 0
IsLost routes (add m) = ⊥
IsLost routes (cancel m) = Maps.lookup m.order_id routes ≡ none
IsLost routes (execute m) = Maps.lookup m.order_id routes ≡ none
IsLost routes (replace m) = Maps.lookup m.old_order_id routes ≡ none

IsRouted-assign :
    (n id : ℕ) (r : OrderRoute) (routes : Routes)
    → Leads n (some r)
    → IsRouted n routes
    → IsRouted n (Maps.assign id r routes)
IsRouted-assign n id r routes good routed j = elim (Bool-cases (id == j)) [
  | inl hit ↦ rw (Maps.lookup-assign j id r routes, hit) good
  | inr miss ↦ rw (Maps.lookup-assign j id r routes, miss) (routed j)
]

pub IsRouted-erase :
    (n id : ℕ) (routes : Routes) → IsRouted n routes → IsRouted n (Maps.erase id routes)
IsRouted-erase n id routes routed j = elim (Bool-cases (id == j)) [
  | inl hit ↦ rw (Maps.lookup-erase j id routes, hit) tt
  | inr miss ↦ rw (Maps.lookup-erase j id routes, miss) (routed j)
]

-- What the part under the lock gives.
pub data Routed (n : ℕ) (routes : Routes) (m : DecodedMessage)
    : Expected DemuxError OrderRoute → Routes → Type 0 where
  lost : IsLost routes m → Routed n routes m (err unroutable_order_id) routes
  found :
      (r : OrderRoute) (routes' : Routes)
      → IsAbout routes m r.symbol
      → Leads n (some r)
      → IsRouted n routes'
      → Routed n routes m (ok r) routes'

leads :
    (n id : ℕ) (routes : Routes) (r : OrderRoute)
    → IsRouted n routes
    → Maps.lookup id routes ≡ some r
    → Leads n (some r)
leads n id routes r routed e = subst (λ x. Leads n x) e (routed id)

pub route-Routed :
    (n : ℕ) (routes : Routes) (m : DecodedMessage)
    → IsRouted n routes
    → Routed n routes m (route n routes m).0 (route n routes m).1
unfolding route route_found replace_found cancel_found
route-Routed n routes (add m) routed =
    let r : OrderRoute = record { shard_index = shard_for_symbol m.symbol n; symbol = m.symbol } in
    found r (Maps.assign m.order_id r routes) refl refl
      (IsRouted-assign n m.order_id r routes refl routed)
route-Routed n routes (cancel m) routed = elim (Option-cases (Maps.lookup m.order_id routes)) [
  | inl none_there ↦ rw none_there (lost none_there)
  | inr (r, there) ↦ rw there (
      found r (Maps.erase m.order_id routes) (r, there, refl)
        (leads n m.order_id routes r routed there) (IsRouted-erase n m.order_id routes routed))
]
route-Routed n routes (execute m) routed = elim (Option-cases (Maps.lookup m.order_id routes)) [
  | inl none_there ↦ rw none_there (lost none_there)
  | inr (r, there) ↦
      rw there (found r routes (r, there, refl) (leads n m.order_id routes r routed there) routed)
]
route-Routed n routes (replace m) routed = elim (Option-cases (Maps.lookup m.old_order_id routes)) [
  | inl none_there ↦ rw none_there (lost none_there)
  | inr (r, there) ↦
      let good = leads n m.old_order_id routes r routed there in
      rw there (
        found r (Maps.assign m.new_order_id r (Maps.erase m.old_order_id routes)) (r, there, refl)
          good
          (IsRouted-assign n m.new_order_id r (Maps.erase m.old_order_id routes) good
            (IsRouted-erase n m.old_order_id routes routed)))
]
