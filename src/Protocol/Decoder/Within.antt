-- ===== src/Protocol/Decoder/Within.antt =====
-- The reads of `decode_*_order` where all the bytes of the payload are there.
use low_latency_market_data.Common.{
  ℕ, zero, suc, ◌+◌, ◌≤◌, ◌≡◌, refl, List, [], ◌∷◌, length, get_elem?-below, some, arith, ℤ,
}
use low_latency_market_data.Protocol.Messages.{
  Symbol, AddOrder, CancelOrder, ExecuteOrder, ReplaceOrder, symbol_len,
}
use low_latency_market_data.Protocol.ByteOrder.{get_u8, get_i64, to_i64}
use low_latency_market_data.Protocol.ByteOrder.Reads.{get_u32-within, get_u64-within}
use low_latency_market_data.Protocol.Decoder.{
  get_chars, decode_add_order, decode_cancel_order, decode_execute_order, decode_replace_order,
}

get_i64-within : (buf : List ℕ) (p : ℕ) → p + 8 ≤ length buf → (z : ℤ) × (get_i64 buf p ≡ some z)
unfolding get_i64
get_i64-within buf p h = let (n, e) = get_u64-within buf p h in rw e (to_i64 n, refl)

get_chars-within :
    (n : ℕ) (buf : List ℕ) (p : ℕ)
    → p + n ≤ length buf
    → (s : Symbol) × (get_chars n buf p ≡ some s)
unfolding get_chars get_u8
get_chars-within zero buf p h = ([], refl)
get_chars-within (suc n) buf p h =
    let (c, e) = get_elem?-below buf p (omega arith) in
    let (cs, es) = get_chars-within n buf (p + 1) (omega arith) in rw (e, es) (c ∷ cs, refl)

pub decode_add_order-within :
    (buf : List ℕ) (p : ℕ)
    → p + 45 ≤ length buf
    → (m : AddOrder) × (decode_add_order buf p ≡ some m)
unfolding decode_add_order get_u8
decode_add_order-within buf p h =
    let (seq, e0) = get_u64-within buf p (omega arith) in
    let (id, e1) = get_u64-within buf (p + 8) (omega arith) in
    let (symbol, e2) = get_chars-within symbol_len buf ((p + 8) + 8) (omega arith) in
    let (side, e3) = get_elem?-below buf (((p + 8) + 8) + symbol_len) (omega arith) in
    let (price, e4) = get_i64-within buf ((((p + 8) + 8) + symbol_len) + 1) (omega arith) in
    let (quantity, e5) =
      get_u32-within buf (((((p + 8) + 8) + symbol_len) + 1) + 8) (omega arith) in
    let (time, e6) =
      get_u64-within buf ((((((p + 8) + 8) + symbol_len) + 1) + 8) + 4) (omega arith) in
    rw (e0, e1, e2, e3, e4, e5, e6) (_, refl)

pub decode_cancel_order-within :
    (buf : List ℕ) (p : ℕ)
    → p + 24 ≤ length buf
    → (m : CancelOrder) × (decode_cancel_order buf p ≡ some m)
unfolding decode_cancel_order
decode_cancel_order-within buf p h =
    let (seq, e0) = get_u64-within buf p (omega arith) in
    let (id, e1) = get_u64-within buf (p + 8) (omega arith) in
    let (time, e2) = get_u64-within buf ((p + 8) + 8) (omega arith) in rw (e0, e1, e2) (_, refl)

pub decode_execute_order-within :
    (buf : List ℕ) (p : ℕ)
    → p + 28 ≤ length buf
    → (m : ExecuteOrder) × (decode_execute_order buf p ≡ some m)
unfolding decode_execute_order
decode_execute_order-within buf p h =
    let (seq, e0) = get_u64-within buf p (omega arith) in
    let (id, e1) = get_u64-within buf (p + 8) (omega arith) in
    let (quantity, e2) = get_u32-within buf ((p + 8) + 8) (omega arith) in
    let (time, e3) = get_u64-within buf (((p + 8) + 8) + 4) (omega arith) in
    rw (e0, e1, e2, e3) (_, refl)

pub decode_replace_order-within :
    (buf : List ℕ) (p : ℕ)
    → p + 44 ≤ length buf
    → (m : ReplaceOrder) × (decode_replace_order buf p ≡ some m)
unfolding decode_replace_order
decode_replace_order-within buf p h =
    let (seq, e0) = get_u64-within buf p (omega arith) in
    let (old, e1) = get_u64-within buf (p + 8) (omega arith) in
    let (new, e2) = get_u64-within buf ((p + 8) + 8) (omega arith) in
    let (price, e3) = get_i64-within buf (((p + 8) + 8) + 8) (omega arith) in
    let (quantity, e4) = get_u32-within buf ((((p + 8) + 8) + 8) + 8) (omega arith) in
    let (time, e5) = get_u64-within buf (((((p + 8) + 8) + 8) + 8) + 4) (omega arith) in
    rw (e0, e1, e2, e3, e4, e5) (_, refl)
