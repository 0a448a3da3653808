-- ===== src/Protocol/ByteOrder.antt =====
-- protocol/byte_order.hpp: little-endian packing of integers into a span of bytes.
-- A span is the list of its bytes and a pointer into it is an offset; `none` is an access behind its end. `x >> (8 * i)` is `x / 2 ^ (8 * i)`,
-- `& 0xFF` and the cast to a byte are `% 256`, and a left shift wraps at the width of its type.
use Prim.Native.Nat.{bit_or}
pub mod Reads
pub mod Writes
use low_latency_market_data.Common.{
  ℕ, zero, suc, ◌+◌, ◌-◌, ◌*◌, ◌/◌, ◌%◌, ◌^◌, ◌≤◌, ◌<◌, ◌≡◌, refl, List, ltb, if◌then◌else◌,
  get_elem?, Option, none, some, ◌>>=◌, length, set, arith, ℤ, pos, negsuc,
}
use low_latency_market_data.Common.Words.{IsU64}

-- `p[0] = byte`
unfoldable pub store : List ℕ → ℕ → ℕ → Option (List ℕ)
store buf p b = if ltb p (length buf) then some (set buf p b) else none

unfoldable pub put_u8 : List ℕ → ℕ → ℕ → Option (List ℕ)
unfolding store
put_u8 buf p v = store buf p (v % 256)

unfoldable pub get_u8 : List ℕ → ℕ → Option ℕ
get_u8 buf p = get_elem? buf p

unfoldable pub put_u16 : List ℕ → ℕ → ℕ → Option (List ℕ)
unfolding store
put_u16 buf p v = do buf' ← store buf p (v % 256); store buf' (p + 1) (v / 2 ^ 8 % 256)

unfoldable pub get_u16 : List ℕ → ℕ → Option ℕ
unfolding get_u8
get_u16 buf p = do a ← get_u8 buf p; b ← get_u8 buf (p + 1); some (bit_or a (b * 2 ^ 8) % 2 ^ 16)

-- The loop of `put_u32` and `put_u64`, with the rounds left and the index `i`.
put_loop : ℕ → ℕ → List ℕ → ℕ → ℕ → Option (List ℕ)
unfolding store
put_loop zero i buf p v = some buf
put_loop (suc n) i buf p v = do
  buf' ← store buf (p + i) (v / 2 ^ (8 * i) % 256)
  put_loop n (i + 1) buf' p v

-- The loop of `get_u32` and `get_u64`, for a type of `w` bits, with the value so far.
get_loop : ℕ → ℕ → ℕ → List ℕ → ℕ → ℕ → Option ℕ
unfolding get_u8
get_loop w zero i buf p v = some v
get_loop w (suc n) i buf p v = do
  b ← get_u8 buf (p + i)
  get_loop w n (i + 1) buf p (bit_or v (b * 2 ^ (8 * i) % 2 ^ w))

unfoldable pub put_u32 : List ℕ → ℕ → ℕ → Option (List ℕ)
unfolding put_loop
put_u32 buf p v = put_loop 4 0 buf p v

pub get_u32 : List ℕ → ℕ → Option ℕ
get_u32 buf p = get_loop 32 4 0 buf p 0

unfoldable pub put_u64 : List ℕ → ℕ → ℕ → Option (List ℕ)
unfolding put_loop
put_u64 buf p v = put_loop 8 0 buf p v

pub get_u64 : List ℕ → ℕ → Option ℕ
get_u64 buf p = get_loop 64 8 0 buf p 0

-- `static_cast` between int64_t and uint64_t: the value modulo 2 ^ 64.
pub to_u64 : ℤ → ℕ
to_u64 (pos n) = n % 2 ^ 64
to_u64 (negsuc n) = 2 ^ 64 - 1 - n % 2 ^ 64

pub to_i64 : ℕ → ℤ
to_i64 n = if ltb n (2 ^ 63) then pos n else negsuc (2 ^ 64 - 1 - n)

unfoldable pub put_i64 : List ℕ → ℕ → ℤ → Option (List ℕ)
unfolding put_u64
put_i64 buf p v = put_u64 buf p (to_u64 v)

unfoldable pub get_i64 : List ℕ → ℕ → Option ℤ
get_i64 buf p = do n ← get_u64 buf p; some (to_i64 n)

pub to_u64-lt : (z : ℤ) → IsU64 (to_u64 z)
unfolding to_u64
to_u64-lt (pos n) = omega arith
to_u64-lt (negsuc n) = omega arith

-- An int64_t: -(2 ^ 63) to 2 ^ 63 - 1.
abbrev pub IsI64 : ℤ → Type 0
IsI64 (pos n) = n < 2 ^ 63
IsI64 (negsuc n) = n < 2 ^ 63

pub to_i64-to_u64 : (z : ℤ) → IsI64 z → to_i64 (to_u64 z) ≡ z
unfolding to_u64 to_i64
to_i64-to_u64 (pos n) h = ground arith
to_i64-to_u64 (negsuc n) h = ground arith
