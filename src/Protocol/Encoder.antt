-- ===== src/Protocol/Encoder.antt =====
-- protocol/encoder.cpp: the four `encode` overloads, over a span of bytes that they write to.
pub mod Wire
use low_latency_market_data.Common.{
  ℕ, ◌+◌, ◌%◌, List, [], ◌∷◌, length, ltb, if◌then◌else◌, Expected, ok, err, Option, none, some,
  ◌>>=◌,
}
use low_latency_market_data.Protocol.Messages.{
  AddOrder, CancelOrder, ExecuteOrder, ReplaceOrder, DecodedMessage, add, cancel, execute, replace,
  type_add, type_cancel, type_execute, type_replace, header_size, add_wire_size, cancel_wire_size,
  execute_wire_size, replace_wire_size,
}
use low_latency_market_data.Protocol.ByteOrder.{put_u8, put_u16, put_u32, put_u64, put_i64}

pub data EncodeError : Type 0 where
  buffer_too_small : EncodeError

-- The bytes written to, and the pointer behind the header.
put_header : List ℕ → ℕ → ℕ → ℕ → Option (List ℕ × ℕ)
put_header out p type len = do
  out ← put_u8 out p type
  out ← put_u16 out (p + 1) len
  some (out, p + header_size)

-- `for (char c : msg.symbol)`
put_chars : List ℕ → ℕ → List ℕ → Option (List ℕ × ℕ)
put_chars out p [] = some (out, p)
put_chars out p (c ∷ s) = do out ← put_u8 out p c; put_chars out (p + 1) s

write_add : AddOrder → List ℕ → Option (List ℕ)
unfolding put_header put_chars
write_add msg out = do
  (out, p) ← put_header out 0 type_add (add_wire_size % 65536)
  out ← put_u64 out p msg.seq_num
  let p = p + 8
  out ← put_u64 out p msg.order_id
  let p = p + 8
  (out, p) ← put_chars out p msg.symbol
  out ← put_u8 out p msg.side
  let p = p + 1
  out ← put_i64 out p msg.price
  let p = p + 8
  out ← put_u32 out p msg.quantity
  let p = p + 4
  put_u64 out p msg.timestamp

pub encode_add : AddOrder → List ℕ → Option (Expected EncodeError ℕ × List ℕ)
unfolding write_add
encode_add msg out =
    if ltb (length out) add_wire_size
    then some (err buffer_too_small, out)
    else do out' ← write_add msg out; some (ok add_wire_size, out')

write_cancel : CancelOrder → List ℕ → Option (List ℕ)
unfolding put_header
write_cancel msg out = do
  (out, p) ← put_header out 0 type_cancel (cancel_wire_size % 65536)
  out ← put_u64 out p msg.seq_num
  let p = p + 8
  out ← put_u64 out p msg.order_id
  let p = p + 8
  put_u64 out p msg.timestamp

pub encode_cancel : CancelOrder → List ℕ → Option (Expected EncodeError ℕ × List ℕ)
unfolding write_cancel
encode_cancel msg out =
    if ltb (length out) cancel_wire_size
    then some (err buffer_too_small, out)
    else do out' ← write_cancel msg out; some (ok cancel_wire_size, out')

write_execute : ExecuteOrder → List ℕ → Option (List ℕ)
unfolding put_header
write_execute msg out = do
  (out, p) ← put_header out 0 type_execute (execute_wire_size % 65536)
  out ← put_u64 out p msg.seq_num
  let p = p + 8
  out ← put_u64 out p msg.order_id
  let p = p + 8
  out ← put_u32 out p msg.executed_quantity
  let p = p + 4
  put_u64 out p msg.timestamp

pub encode_execute : ExecuteOrder → List ℕ → Option (Expected EncodeError ℕ × List ℕ)
unfolding write_execute
encode_execute msg out =
    if ltb (length out) execute_wire_size
    then some (err buffer_too_small, out)
    else do out' ← write_execute msg out; some (ok execute_wire_size, out')

write_replace : ReplaceOrder → List ℕ → Option (List ℕ)
unfolding put_header
write_replace msg out = do
  (out, p) ← put_header out 0 type_replace (replace_wire_size % 65536)
  out ← put_u64 out p msg.seq_num
  let p = p + 8
  out ← put_u64 out p msg.old_order_id
  let p = p + 8
  out ← put_u64 out p msg.new_order_id
  let p = p + 8
  out ← put_i64 out p msg.price
  let p = p + 8
  out ← put_u32 out p msg.quantity
  let p = p + 4
  put_u64 out p msg.timestamp

pub encode_replace : ReplaceOrder → List ℕ → Option (Expected EncodeError ℕ × List ℕ)
unfolding write_replace
encode_replace msg out =
    if ltb (length out) replace_wire_size
    then some (err buffer_too_small, out)
    else do out' ← write_replace msg out; some (ok replace_wire_size, out')

-- The overload that the message's type selects. `none` is a write behind the end of the span.
pub encode : DecodedMessage → List ℕ → Option (Expected EncodeError ℕ × List ℕ)
encode (add m) out = encode_add m out
encode (cancel m) out = encode_cancel m out
encode (execute m) out = encode_execute m out
encode (replace m) out = encode_replace m out
