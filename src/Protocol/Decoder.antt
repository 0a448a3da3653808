-- ===== src/Protocol/Decoder.antt =====
-- protocol/decoder.hpp and decoder.cpp: `decode` over a span of bytes.
pub mod Wire
pub mod Within
pub mod Errors
use mathlib.Core.Option
use low_latency_market_data.Common.{
  ℕ, zero, suc, ◌+◌, List, [], ◌∷◌, length, ltb, ◌==◌, not, if◌then◌else◌, Expected, ok, err,
  Option, none, some, ◌>>=◌,
}
use low_latency_market_data.Protocol.Messages.{
  AddOrder, CancelOrder, ExecuteOrder, ReplaceOrder, DecodedMessage, add, cancel, execute, replace,
  type_add, type_cancel, type_execute, type_replace, header_size, symbol_len, Symbol, add_wire_size,
  cancel_wire_size, execute_wire_size, replace_wire_size,
}
use low_latency_market_data.Protocol.ByteOrder.{get_u8, get_u16, get_u32, get_u64, get_i64}

pub data DecodeError : Type 0 where
  truncated_message invalid_message_type length_mismatch : DecodeError

pub wire_size_for : ℕ → Expected DecodeError ℕ
wire_size_for raw_type =
    if raw_type == type_add
    then ok add_wire_size
    else if raw_type == type_cancel
    then ok cancel_wire_size
    else if raw_type == type_execute
    then ok execute_wire_size
    else if raw_type == type_replace
    then ok replace_wire_size
    else err invalid_message_type

-- `for (char& c : msg.symbol)`, with the characters left.
get_chars : ℕ → List ℕ → ℕ → Option Symbol
get_chars zero buf p = some []
get_chars (suc n) buf p = do c ← get_u8 buf p; cs ← get_chars n buf (p + 1); some (c ∷ cs)

pub decode_add_order : List ℕ → ℕ → Option AddOrder
unfolding get_chars
decode_add_order buf p = do
  seq_num ← get_u64 buf p
  let p1 = p + 8
  order_id ← get_u64 buf p1
  let p2 = p1 + 8
  symbol ← get_chars symbol_len buf p2
  let p3 = p2 + symbol_len
  side ← get_u8 buf p3
  let p4 = p3 + 1
  price ← get_i64 buf p4
  let p5 = p4 + 8
  quantity ← get_u32 buf p5
  let p6 = p5 + 4
  timestamp ← get_u64 buf p6
  some (record {
    seq_num = seq_num;
    order_id = order_id;
    symbol = symbol;
    side = side;
    price = price;
    quantity = quantity;
    timestamp = timestamp;
  })

pub decode_cancel_order : List ℕ → ℕ → Option CancelOrder
decode_cancel_order buf p = do
  seq_num ← get_u64 buf p
  let p1 = p + 8
  order_id ← get_u64 buf p1
  let p2 = p1 + 8
  timestamp ← get_u64 buf p2
  some (record { seq_num = seq_num; order_id = order_id; timestamp = timestamp })

pub decode_execute_order : List ℕ → ℕ → Option ExecuteOrder
decode_execute_order buf p = do
  seq_num ← get_u64 buf p
  let p1 = p + 8
  order_id ← get_u64 buf p1
  let p2 = p1 + 8
  executed_quantity ← get_u32 buf p2
  let p3 = p2 + 4
  timestamp ← get_u64 buf p3
  some (record {
    seq_num = seq_num;
    order_id = order_id;
    executed_quantity = executed_quantity;
    timestamp = timestamp;
  })

pub decode_replace_order : List ℕ → ℕ → Option ReplaceOrder
decode_replace_order buf p = do
  seq_num ← get_u64 buf p
  let p1 = p + 8
  old_order_id ← get_u64 buf p1
  let p2 = p1 + 8
  new_order_id ← get_u64 buf p2
  let p3 = p2 + 8
  price ← get_i64 buf p3
  let p4 = p3 + 8
  quantity ← get_u32 buf p4
  let p5 = p4 + 4
  timestamp ← get_u64 buf p5
  some (record {
    seq_num = seq_num;
    old_order_id = old_order_id;
    new_order_id = new_order_id;
    price = price;
    quantity = quantity;
    timestamp = timestamp;
  })

-- The second switch of `decode`; its default is `std::unreachable()`.
decode_payload : ℕ → List ℕ → ℕ → Option DecodedMessage
decode_payload raw_type buf p =
    if raw_type == type_add
    then Option.map add (decode_add_order buf p)
    else if raw_type == type_cancel
    then Option.map cancel (decode_cancel_order buf p)
    else if raw_type == type_execute
    then Option.map execute (decode_execute_order buf p)
    else if raw_type == type_replace
    then Option.map replace (decode_replace_order buf p)
    else none

decode_sized : ℕ → ℕ → ℕ → List ℕ → Option (Expected DecodeError DecodedMessage)
decode_sized raw_type len expected buf =
    if not (len == expected)
    then some (err length_mismatch)
    else if ltb (length buf) len
    then some (err truncated_message)
    else Option.map ok (decode_payload raw_type buf header_size)

-- What follows the first switch.
decode_known :
    (raw_type len : ℕ)
    → Expected DecodeError ℕ
    → List ℕ
    → Option (Expected DecodeError DecodedMessage)
decode_known raw_type len (err e) buf = some (err e)
decode_known raw_type len (ok expected) buf = decode_sized raw_type len expected buf

-- `none` is `std::unreachable()`, or a read behind the end of the span.
pub decode : List ℕ → Option (Expected DecodeError DecodedMessage)
unfolding decode_known
decode buf = if ltb (length buf) header_size then some (err truncated_message) else do
  raw_type ← get_u8 buf 0
  len ← get_u16 buf 1
  decode_known raw_type len (wire_size_for raw_type) buf
