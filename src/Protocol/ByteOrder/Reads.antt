-- ===== src/Protocol/ByteOrder/Reads.antt =====
-- What the `get_*` functions read where the bytes of an integer stand.
use Prim.Native.Nat.{bit_or}
use native.Mathlib.Nat.{mod-eq_of_lt}
use low_latency_market_data.Common.{
  ℕ, ◌+◌, ◌*◌, ◌/◌, ◌%◌, ◌^◌, ◌≤◌, ◌<◌, ◌≡◌, refl, List, get_elem?, some, ap, zero, suc, length,
  get_elem?-below, arith,
}
use low_latency_market_data.Common.Words.{IsU32, IsU64, bit_or-shift}
use low_latency_market_data.Protocol.ByteOrder.{get_u8, get_loop, get_u32, get_u64}

-- The byte at offset `p` is byte `i` of `v`.
abbrev pub HoldsByte : List ℕ → ℕ → ℕ → ℕ → Type 0
HoldsByte buf p v i = get_elem? buf (p + i) ≡ some (v / 2 ^ (8 * i) % 256)

abbrev pub Holds4 : List ℕ → ℕ → ℕ → Type 0
Holds4 buf p v =
    HoldsByte buf p v 0 × HoldsByte buf p v 1 × HoldsByte buf p v 2 × HoldsByte buf p v 3

abbrev pub Holds8 : List ℕ → ℕ → ℕ → Type 0
Holds8 buf p v =
    HoldsByte buf p v 0
    × HoldsByte buf p v 1
    × HoldsByte buf p v 2
    × HoldsByte buf p v 3
    × HoldsByte buf p v 4
    × HoldsByte buf p v 5
    × HoldsByte buf p v 6
    × HoldsByte buf p v 7

-- `acc |= byte << k` for the byte of `v` at bit `k`: `acc` holds the bits below it.
or_byte :
    (w k v acc b : ℕ) {next : ℕ}
    → b ≡ v / 2 ^ k % 256
    → acc < 2 ^ k
    → b * 2 ^ k < 2 ^ w
    → acc + b * 2 ^ k ≡ next
    → bit_or acc (b * 2 ^ k % 2 ^ w) ≡ next
or_byte w k v acc b hb ha fits e = rw (mod-eq_of_lt fits, bit_or-shift k acc b ha) e

module _ (v : ℕ) where
  abbrev byte : ℕ → ℕ
  byte k = v / 2 ^ k % 256

  step0 : (w : ℕ) → 256 ≤ 2 ^ w → bit_or 0 (byte 0 * 2 ^ 0 % 2 ^ w) ≡ v % 2 ^ 8
  step0 w h = or_byte w 0 v 0 (byte 0) refl (omega arith) (omega arith) (omega arith)

  step8 : (w : ℕ) → 2 ^ 16 ≤ 2 ^ w → bit_or (v % 2 ^ 8) (byte 8 * 2 ^ 8 % 2 ^ w) ≡ v % 2 ^ 16
  step8 w h = or_byte w 8 v (v % 2 ^ 8) (byte 8) refl (omega arith) (omega arith) (omega arith)

  step16 : (w : ℕ) → 2 ^ 24 ≤ 2 ^ w → bit_or (v % 2 ^ 16) (byte 16 * 2 ^ 16 % 2 ^ w) ≡ v % 2 ^ 24
  step16 w h = or_byte w 16 v (v % 2 ^ 16) (byte 16) refl (omega arith) (omega arith) (omega arith)

  step24 : (w : ℕ) → 2 ^ 32 ≤ 2 ^ w → bit_or (v % 2 ^ 24) (byte 24 * 2 ^ 24 % 2 ^ w) ≡ v % 2 ^ 32
  step24 w h = or_byte w 24 v (v % 2 ^ 24) (byte 24) refl (omega arith) (omega arith) (omega arith)

  step32 : bit_or (v % 2 ^ 32) (byte 32 * 2 ^ 32 % 2 ^ 64) ≡ v % 2 ^ 40
  step32 = or_byte 64 32 v (v % 2 ^ 32) (byte 32) refl (omega arith) (omega arith) (omega arith)

  step40 : bit_or (v % 2 ^ 40) (byte 40 * 2 ^ 40 % 2 ^ 64) ≡ v % 2 ^ 48
  step40 = or_byte 64 40 v (v % 2 ^ 40) (byte 40) refl (omega arith) (omega arith) (omega arith)

  step48 : bit_or (v % 2 ^ 48) (byte 48 * 2 ^ 48 % 2 ^ 64) ≡ v % 2 ^ 56
  step48 = or_byte 64 48 v (v % 2 ^ 48) (byte 48) refl (omega arith) (omega arith) (omega arith)

  step56 : bit_or (v % 2 ^ 56) (byte 56 * 2 ^ 56 % 2 ^ 64) ≡ v % 2 ^ 64
  step56 = or_byte 64 56 v (v % 2 ^ 56) (byte 56) refl (omega arith) (omega arith) (omega arith)

pub get_u32_lem : (buf : List ℕ) (p v : ℕ) → IsU32 v → Holds4 buf p v → get_u32 buf p ≡ some v
unfolding get_u32 get_loop get_u8
get_u32_lem buf p v hv (h0, h1, h2, h3) =
    rw
      (
        h0,
        h1,
        h2,
        h3,
        step0 v 32 (omega arith),
        step8 v 32 (omega arith),
        step16 v 32 (omega arith),
        step24 v 32 (omega arith),
      )
      (ap some (mod-eq_of_lt hv))

pub get_u64_lem : (buf : List ℕ) (p v : ℕ) → IsU64 v → Holds8 buf p v → get_u64 buf p ≡ some v
unfolding get_u64 get_loop get_u8
get_u64_lem buf p v hv (h0, h1, h2, h3, h4, h5, h6, h7) =
    rw
      (
        h0,
        h1,
        h2,
        h3,
        h4,
        h5,
        h6,
        h7,
        step0 v 64 (omega arith),
        step8 v 64 (omega arith),
        step16 v 64 (omega arith),
        step24 v 64 (omega arith),
        step32 v,
        step40 v,
        step48 v,
        step56 v,
      )
      (ap some (mod-eq_of_lt hv))

-- A read of bytes that are all there.
get_loop-within :
    (w n i : ℕ) (buf : List ℕ) (p v : ℕ)
    → p + (i + n) ≤ length buf
    → (x : ℕ) × (get_loop w n i buf p v ≡ some x)
unfolding get_loop get_u8
get_loop-within w zero i buf p v h = (v, refl)
get_loop-within w (suc n) i buf p v h =
    let (b, there) = get_elem?-below buf (p + i) (omega arith) in
    rw there (get_loop-within w n (i + 1) buf p _ (omega arith))

pub get_u32-within :
    (buf : List ℕ) (p : ℕ) → p + 4 ≤ length buf → (x : ℕ) × (get_u32 buf p ≡ some x)
unfolding get_u32
get_u32-within buf p h = get_loop-within 32 4 0 buf p 0 (omega arith)

pub get_u64-within :
    (buf : List ℕ) (p : ℕ) → p + 8 ≤ length buf → (x : ℕ) × (get_u64 buf p ≡ some x)
unfolding get_u64
get_u64-within buf p h = get_loop-within 64 8 0 buf p 0 (omega arith)
