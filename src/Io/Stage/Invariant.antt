-- ===== src/Io/Stage/Invariant.antt =====
-- What holds in every state of a stage.
use low_latency_market_data.Common.{ℕ, ◌+◌, ◌≡◌, ◌≤◌, Bool, true, false, arith, refl}
use low_latency_market_data.Concurrency.RingBuffer.{
  Producer, idle, waking, Consumer, resting, guessed, announcing, claiming, retracting, reading,
  leaving,
}
use low_latency_market_data.Concurrency.RingBuffer.Invariant.{IsSound, initial-IsSound}
use low_latency_market_data.Io.Stage.{
  Loop, draining, checking, last_drain, looking, looked, snapshotting, rechecking, rechecked,
  blocked, exited, Stage, in_drain, initial_stage,
}

abbrev pub one_if : Bool → ℕ
one_if true = 1
one_if false = 0

-- A push whose item is queued and whose increment of `wake_generation_` is still to come.
abbrev pub unannounced : Producer → ℕ
unannounced waking = 1
unannounced p = 0

-- The consumer's guess is still the head.
abbrev pub Fresh : {A : Type 0} → Consumer A → ℕ → Type 0
Fresh resting head = Unit {0}
Fresh (guessed h) head = h ≡ head
Fresh (announcing h) head = h ≡ head
Fresh (claiming h) head = h ≡ head
Fresh (retracting h) head = ⊥
Fresh (reading h) head = Unit {0}
Fresh (leaving h v) head = Unit {0}

-- What the consumer thread knows at its place: behind the flag there are no evictions, and a snapshot
-- counts no push behind the tail that it saw.
abbrev pub Waits :
    {A : Type 0} → Loop → (tail head : ℕ) → (notified done : Bool) → Consumer A → Type 0
Waits (draining did_work) tail head notified done c = Unit {0}
Waits checking tail head notified done c = Unit {0}
Waits (last_drain did_work) tail head notified done c = (done ≡ true) × Fresh c head
Waits looking tail head notified done c = Unit {0}
Waits (looked t) tail head notified done c = Unit {0}
Waits snapshotting tail head notified done c = Unit {0}
Waits (rechecking g) tail head notified done c = g ≤ tail + one_if notified
Waits (rechecked g t) tail head notified done c = g ≤ t + one_if notified
Waits (blocked g) tail head notified done c = g ≤ head + one_if notified
Waits exited tail head notified done c = (done ≡ true) × (head ≡ tail)

module _ {A : Type 0} (cap : ℕ) (item : ℕ → A) where
  pub record Holds (s : Stage A) : Type 0 where
    pub sound : IsSound cap item s.ring
    pub bumps :
        s.ring.wake_generation + unannounced s.ring.producer ≡ s.ring.tail + one_if s.notified
    pub told : s.notified ≡ true → s.done ≡ true
    pub quiet : s.done ≡ true → s.ring.producer ≡ idle
    pub between : in_drain s.loop ≡ false → s.ring.consumer ≡ resting
    pub waits : Waits s.loop s.ring.tail s.ring.head s.notified s.done s.ring.consumer

  pub initial-Holds : (blank : A) → Holds (initial_stage cap item blank)
  initial-Holds blank = record {
    sound = initial-IsSound cap item blank;
    bumps = refl;
    told = λ e. absurd (cc);
    quiet = λ e. refl;
    between = λ e. refl;
    waits = tt;
  }

-- Another push only adds to what was known; behind the flag there is none.
pub Waits-push :
    {A : Type 0} (l : Loop) (tail head tail' head' : ℕ) (notified done : Bool) (c : Consumer A)
    → done ≡ false
    → tail ≤ tail'
    → head ≤ head'
    → Waits l tail head notified done c
    → Waits l tail' head' notified done c
Waits-push (draining did_work) tail head tail' head' notified done c e t h w = tt
Waits-push checking tail head tail' head' notified done c e t h w = tt
Waits-push (last_drain did_work) tail head tail' head' notified done c e t h w =
    absurd (let d = w.0 in cc)
Waits-push looking tail head tail' head' notified done c e t h w = tt
Waits-push (looked x) tail head tail' head' notified done c e t h w = tt
Waits-push snapshotting tail head tail' head' notified done c e t h w = tt
Waits-push (rechecking g) tail head tail' head' notified done c e t h w = omega arith
Waits-push (rechecked g x) tail head tail' head' notified done c e t h w = w
Waits-push (blocked g) tail head tail' head' notified done c e t h w = omega arith
Waits-push exited tail head tail' head' notified done c e t h w = absurd (let d = w.0 in cc)

pub Waits-finish :
    {A : Type 0} (l : Loop) (tail head : ℕ) (notified : Bool) (c : Consumer A)
    → Waits l tail head notified false c
    → Waits l tail head notified true c
Waits-finish (draining did_work) tail head notified c w = tt
Waits-finish checking tail head notified c w = tt
Waits-finish (last_drain did_work) tail head notified c w = absurd (let d = w.0 in cc)
Waits-finish looking tail head notified c w = tt
Waits-finish (looked x) tail head notified c w = tt
Waits-finish snapshotting tail head notified c w = tt
Waits-finish (rechecking g) tail head notified c w = w
Waits-finish (rechecked g x) tail head notified c w = w
Waits-finish (blocked g) tail head notified c w = w
Waits-finish exited tail head notified c w = absurd (let d = w.0 in cc)

pub Waits-notify :
    {A : Type 0} (l : Loop) (tail head : ℕ) (done : Bool) (c : Consumer A)
    → Waits l tail head false done c
    → Waits l tail head true done c
Waits-notify (draining did_work) tail head done c w = tt
Waits-notify checking tail head done c w = tt
Waits-notify (last_drain did_work) tail head done c w = w
Waits-notify looking tail head done c w = tt
Waits-notify (looked x) tail head done c w = tt
Waits-notify snapshotting tail head done c w = tt
Waits-notify (rechecking g) tail head done c w = omega arith
Waits-notify (rechecked g x) tail head done c w = omega arith
Waits-notify (blocked g) tail head done c w = omega arith
Waits-notify exited tail head done c w = w
