-- ===== src/Affinity.antt =====
-- affinity/thread_affinity_linux.cpp: the choice of a core for a thread. The operating system is a
-- parameter: `available` is what sched_getaffinity gives, `none` if it fails, and `set_affinity` tells
-- whether pthread_setaffinity_np accepted a core. On macOS the function passes its tag on to the kernel.
pub mod Cores
use low_latency_market_data.Common.{
  ℕ, zero, suc, ◌+◌, ◌%◌, List, [], ◌∷◌, ◌++◌, Option, none, some, Bool, true, false, length,
  get_elem?, ◌==◌, if◌then◌else◌,
}

abbrev pub cpu_setsize : ℕ
cpu_setsize = 1024

-- The loop over the cores, from number `cpu` for `count` rounds.
unfoldable pub usable_from : (ℕ → Bool) → (count cpu : ℕ) → List ℕ → List ℕ
usable_from available zero cpu usable_cpus = usable_cpus
usable_from available (suc count) cpu usable_cpus =
    usable_from available count (cpu + 1)
      (if available cpu then usable_cpus ++ cpu ∷ [] else usable_cpus)

unfoldable pub usable_cpus : (ℕ → Bool) → List ℕ
usable_cpus available = usable_from available cpu_setsize 0 []

-- `usable_cpus[tag % usable_cpus.size()]`, unless there are none.
pub target_cpu : List ℕ → ℕ → Option ℕ
target_cpu [] tag = none
target_cpu (cpu ∷ cpus) tag = get_elem? (cpu ∷ cpus) (tag % length (cpu ∷ cpus))

abbrev pub pin : (ℕ → Bool) → Option ℕ → Bool
pin set_affinity none = false
pin set_affinity (some cpu) = set_affinity cpu

pub set_thread_affinity_tag : Option (ℕ → Bool) → (ℕ → Bool) → ℕ → Bool
set_thread_affinity_tag none set_affinity tag = false
set_thread_affinity_tag (some available) set_affinity tag =
    pin set_affinity (target_cpu (usable_cpus available) tag)
