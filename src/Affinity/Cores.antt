-- ===== src/Affinity/Cores.antt =====
-- The cores that threads are pinned to.
use native.Mathlib.Nat.{mod-lt, mod-eq_of_lt}
use mathlib.Core.Path.{subst}
use mathlib.Core.Option.{some-injective}
use low_latency_market_data.Common.{
  ℕ, zero, suc, ◌+◌, ◌%◌, ◌≡◌, ◌≤◌, ◌<◌, refl, sym, ap, ◌∙◌, List, [], ◌∷◌, ◌++◌, some, Bool, true,
  length, get_elem?, if◌then◌else◌, Bool-cases, inl, inr, append-nil, append_assoc, arith,
}
use low_latency_market_data.Common.{get_elem?-below}
use low_latency_market_data.Affinity.{cpu_setsize, usable_from, usable_cpus, target_cpu}

-- The cores from number `cpu` on that may be used.
usable : (ℕ → Bool) → (count cpu : ℕ) → List ℕ
usable available zero cpu = []
usable available (suc count) cpu =
    let rest = usable available count (cpu + 1) in if available cpu then cpu ∷ rest else rest

usable_from_lem :
    (available : ℕ → Bool) (count cpu : ℕ) (l : List ℕ)
    → usable_from available count cpu l ≡ l ++ usable available count cpu
unfolding usable_from usable
usable_from_lem available zero cpu l = sym (append-nil l)
usable_from_lem available (suc count) cpu l = elim (Bool-cases (available cpu)) [
  | inl may ↦ rw may (
      usable_from_lem available count (cpu + 1) (l ++ cpu ∷ [])
      ∙ append_assoc l (cpu ∷ []) (usable available count (cpu + 1)))
  | inr off ↦ rw off (usable_from_lem available count (cpu + 1) l)
]

-- Rising numbers of cores that may be used.
abbrev Rising : (ℕ → Bool) → ℕ → List ℕ → Type 0
Rising available low [] = Unit {0}
Rising available low (c ∷ cs) = (low ≤ c) × (available c ≡ true) × Rising available (c + 1) cs

Rising-lower :
    (available : ℕ → Bool) (low low' : ℕ) (l : List ℕ)
    → low' ≤ low
    → Rising available low l
    → Rising available low' l
Rising-lower available low low' [] le r = tt
Rising-lower available low low' (c ∷ cs) le (above, may, rest) = (omega arith, may, rest)

usable-Rising :
    (available : ℕ → Bool) (count cpu : ℕ) → Rising available cpu (usable available count cpu)
unfolding usable
usable-Rising available zero cpu = tt
usable-Rising available (suc count) cpu =
    let rest = usable-Rising available count (cpu + 1) in
    elim (Bool-cases (available cpu)) [
      | inl may ↦ rw may (omega arith, may, rest)
      | inr off ↦ rw off (
          Rising-lower available (cpu + 1) cpu (usable available count (cpu + 1)) (omega arith)
            rest)
    ]

Rising-get :
    (available : ℕ → Bool) (low i c : ℕ) (l : List ℕ)
    → Rising available low l
    → get_elem? l i ≡ some c
    → (low ≤ c) × (available c ≡ true)
Rising-get available low i c [] r e = absurd (cc)
Rising-get available low zero c (x ∷ l) (above, may, rest) e =
    let same = some-injective x c e in (omega arith, subst (λ k. available k ≡ true) same may)
Rising-get available low (suc i) c (x ∷ l) (above, may, rest) e =
    let (le, may_c) = Rising-get available (x + 1) i c l rest e in (omega arith, may_c)

Rising-apart :
    (available : ℕ → Bool) (low i j c : ℕ) (l : List ℕ)
    → Rising available low l
    → get_elem? l i ≡ some c
    → get_elem? l j ≡ some c
    → i ≡ j
Rising-apart available low i j c [] r e e' = absurd (cc)
Rising-apart available low zero zero c (x ∷ l) r e e' = refl
Rising-apart available low zero (suc j) c (x ∷ l) (above, may, rest) e e' =
    let same = some-injective x c e in
    let later = Rising-get available (x + 1) j c l rest e' in absurd (omega arith)
Rising-apart available low (suc i) zero c (x ∷ l) (above, may, rest) e e' =
    let same = some-injective x c e' in
    let later = Rising-get available (x + 1) i c l rest e in absurd (omega arith)
Rising-apart available low (suc i) (suc j) c (x ∷ l) (above, may, rest) e e' =
    ap suc (Rising-apart available (x + 1) i j c l rest e e')

target_cpu-here :
    (l : List ℕ) (tag : ℕ) → 0 < length l → (target_cpu l tag ≡ get_elem? l (tag % length l))
unfolding target_cpu
target_cpu-here [] tag pos = absurd (omega arith)
target_cpu-here (x ∷ l) tag pos = refl

-- When the process may use some core, every tag leads to a core that the process may use, and two
-- tags below the number of usable cores lead to the same core only if they are the same.
pub target_cpu_lem :
    (available : ℕ → Bool) (tag : ℕ)
    → let cpus = usable_cpus available in
      0 < length cpus
      → (cpu : ℕ) × (target_cpu cpus tag ≡ some cpu)
        × (available cpu ≡ true)
        × ((tag' : ℕ)
            → tag < length cpus
            → tag' < length cpus
            → target_cpu cpus tag' ≡ some cpu
            → tag' ≡ tag)
unfolding usable_cpus
target_cpu_lem available tag pos =
    let l = usable_from available cpu_setsize 0 [] in
    let rising : Rising available 0 l =
      subst (λ k. Rising available 0 k) (sym (usable_from_lem available cpu_setsize 0 []))
        (usable-Rising available cpu_setsize 0) in
    let (cpu, there) = get_elem?-below l (tag % length l) (mod-lt tag pos) in
    (
      cpu,
      target_cpu-here l tag pos ∙ there,
      (Rising-get available 0 (tag % length l) cpu l rising there).1,
      λ tag' fits fits' e.
          sym (mod-eq_of_lt fits')
          ∙ Rising-apart available 0 (tag' % length l) (tag % length l) cpu l rising
              (sym (target_cpu-here l tag' pos) ∙ e) there
          ∙ mod-eq_of_lt fits,
    )
