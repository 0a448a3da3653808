-- ===== src/Concurrency/GapDetector/Feed.antt =====
-- What the gap detector knows of a feed after it.
use low_latency_market_data.Common.{
  ℕ, zero, suc, some, ◌+◌, ◌≡◌, ◌<◌, ◌≤◌, ◌^◌, ◌%◌, inl, inr, refl, ap, ◌∙◌, List, [], ◌∷◌, Bool,
  true, false, ◌||◌, ◌==◌, ltb, lt→ltb, le→ltb, if◌then◌else◌, Bool-cases, arith, All,
}
use low_latency_market_data.Concurrency.GapDetector.{
  GapDetector, BookState, SequenceObservation, live, observe, observe_next, resync, observe_all,
  new_detector, is_stale, last_seq_num,
}
use low_latency_market_data.Concurrency.GapDetector.Classify.{
  Observed, next, old, skipped, observe_lem,
}

-- Not the largest number of its type, after which `last + 1` wraps.
abbrev pub IsBelowTop : ℕ → Type 0
IsBelowTop n = n + 1 < 2 ^ 64

abbrev pub arrived : ℕ → List ℕ → Bool
arrived k [] = false
arrived k (n ∷ ns) = (n == k) || arrived k ns

abbrev pub highest : ℕ → List ℕ → ℕ
highest m [] = m
highest m (n ∷ ns) = highest (if ltb m n then n else m) ns

record Sound (d : GapDetector) (ns : List ℕ) (d' : GapDetector) : Type 0 where
  has : d'.has_last ≡ true
  top : d'.last ≡ highest d.last ns
  was : is_stale d' ≡ false → is_stale d ≡ false
  all : is_stale d' ≡ false → (k : ℕ) → d.last < k → k ≤ d'.last → arrived k ns ≡ true

Observed-fits :
    (d : GapDetector) (n : ℕ) (o : SequenceObservation) (d1 : GapDetector)
    → Observed d n o d1
    → d.has_last ≡ true
    → IsBelowTop d.last
    → IsBelowTop n
    → (d1.has_last ≡ true) × IsBelowTop d1.last
Observed-fits d n o d1 (next e) has l t = (has, t)
Observed-fits d n o d1 (old e) has l t = (has, l)
Observed-fits d n o d1 (skipped e) has l t = (has, t)

step :
    (d : GapDetector) (n : ℕ) (ns : List ℕ) (o : SequenceObservation) (d1 d' : GapDetector)
    → Observed d n o d1
    → Sound d1 ns d'
    → Sound d (n ∷ ns) d'
unfolding is_stale
step d n ns o d1 d' (next e) s = record {
  has = s.has;
  top = rw (lt→ltb d.last n (omega arith)) s.top;
  was = λ h. s.was h;
  all = λ h k lo hi. elim (Bool-cases (n == k)) [
    | inl hit ↦ rw hit
    | inr miss ↦ rw (miss) (s.all h k (ground arith) hi)
  ];
}
step d n ns o d1 d' (old e) s = record {
  has = s.has;
  top = rw (le→ltb d.last n e) s.top;
  was = s.was;
  all = λ h k lo hi. ground (arith, s.all h k lo hi);
}
step d n ns o d1 d' (skipped e) s = record {
  has = s.has;
  top = rw (lt→ltb d.last n (omega arith)) s.top;
  was = λ h. absurd (cc (s.was h));
  all = λ h k lo hi. absurd (cc (s.was h));
}

observe_all-Sound :
    (d : GapDetector) (ns : List ℕ)
    → d.has_last ≡ true
    → IsBelowTop d.last
    → All IsBelowTop ns
    → Sound d ns (observe_all d ns)
unfolding observe_all
observe_all-Sound d [] has l b = record {
  has = has;
  top = refl;
  was = λ h. h;
  all = λ h k lo hi. absurd (omega arith);
}
observe_all-Sound d (n ∷ ns) has l b =
    let o = observe_lem d n has l in
    let (has', l') = Observed-fits d n (observe d n).0 (observe d n).1 o has l b.0 in
    step d n ns (observe d n).0 (observe d n).1 (observe_all (observe d n).1 ns) o
      (observe_all-Sound (observe d n).1 ns has' l' b.1)

-- A detector that has seen a number, and is not stale after a feed, was not stale before it, and
-- every number above its last one, up to its new last one, arrived with the feed.
pub live→arrived :
    (d : GapDetector) (ns : List ℕ)
    → d.has_last ≡ true
    → IsBelowTop d.last
    → All IsBelowTop ns
    → is_stale (observe_all d ns) ≡ false
    → (is_stale d ≡ false)
      × ((k : ℕ) → d.last < k → k ≤ (observe_all d ns).last → arrived k ns ≡ true)
live→arrived d ns has l b h = let s = observe_all-Sound d ns has l b in (s.was h, s.all h)

-- A new detector's last number is the highest one of its feed.
new_detector_last :
    (n : ℕ) (ns : List ℕ)
    → All IsBelowTop (n ∷ ns)
    → last_seq_num (observe_all new_detector (n ∷ ns)) ≡ some (highest n ns)
unfolding observe_all new_detector observe last_seq_num
new_detector_last n ns b =
    let s = observe_all-Sound (observe new_detector n).1 ns refl b.0 b.1 in rw (s.has, s.top)

-- The numbers r + 1, r + 2, ..., r + k.
abbrev pub numbers_after : ℕ → ℕ → List ℕ
numbers_after r zero = []
numbers_after r (suc k) = (r + 1) ∷ numbers_after (r + 1) k

-- A detector that has seen a number.
abbrev pub seen : ℕ → BookState → ℕ → GapDetector
seen l st g = record { has_last = true; last = l; state = st; gaps_total = g }

in_order_feed :
    (l : ℕ) (st : BookState) (g k : ℕ)
    → l + k < 2 ^ 64
    → observe_all (seen l st g) (numbers_after l k) ≡ seen (l + k) st g
unfolding observe_all observe observe_next
in_order_feed l st g zero b = let e : l ≡ l + 0 = omega arith in ap (λ n. seen n st g) e
in_order_feed l st g (suc k) b =
    let hit : ((l + 1) == (l + 1) % 2 ^ 64) ≡ true = ground arith in
    let e : l + 1 + k ≡ l + suc k = omega arith in
    rw (observe_all, hit) (in_order_feed (l + 1) st g k (omega arith) ∙ ap (λ n. seen n st g) e)

-- After a resync, the numbers that follow it keep the detector live, whatever it was before, and
-- its count of gaps as it was.
resync_lem :
    (d : GapDetector) (r k : ℕ)
    → r + k < 2 ^ 64
    → observe_all (resync d r) (numbers_after r k) ≡ seen (r + k) live d.gaps_total
unfolding resync
resync_lem d r k b = in_order_feed r live d.gaps_total k b

-- A new detector stays live, and counts no gap, on the numbers 1, 2, ..., c.
pub in_order_live :
    (c : ℕ)
    → c < 2 ^ 64
    → (is_stale (observe_all new_detector (numbers_after 0 c)) ≡ false)
      × ((observe_all new_detector (numbers_after 0 c)).gaps_total ≡ 0)
unfolding observe_all observe new_detector is_stale
in_order_live zero fits = (refl, refl)
in_order_live (suc c) fits = rw (in_order_feed 1 live 0 c (omega arith)) (refl, refl)
