-- ===== src/Protocol/Decoder/Wire.antt =====
-- `decode` on the bytes of a message, and on any bytes.
use mathlib.Core.Option
use native.Mathlib.Nat.{mod-eq_of_lt}
use mathlib.Core.Path.{subst}
use low_latency_market_data.Common.{
  ℕ, ◌≤◌, ◌≡◌, refl, sym, ap, List, [], ◌∷◌, ◌++◌, length, le→ltb, ==_refl, ok, arith, ℤ, some,
}
use low_latency_market_data.Protocol.Messages.{
  AddOrder, CancelOrder, ExecuteOrder, ReplaceOrder, DecodedMessage, add, cancel, execute, replace,
  type_add, add_wire_size, type_execute, execute_wire_size, type_replace, replace_wire_size,
  type_cancel, cancel_wire_size, header_size, IsAdd, IsCancel, IsExecute, IsReplace, IsMessage,
}
use low_latency_market_data.Protocol.ByteOrder.{
  get_u8, get_u16, to_u64, to_u64-lt, get_i64, to_i64-to_u64,
}
use low_latency_market_data.Protocol.ByteOrder.Reads.{get_u32_lem, get_u64_lem}
use low_latency_market_data.Protocol.Encoder.Wire.{wire, symbol_chars}
use low_latency_market_data.Protocol.Decoder.{
  get_chars, decode_payload, decode_known, decode_sized, decode, wire_size_for, decode_add_order,
  decode_cancel_order, decode_execute_order, decode_replace_order,
}

sized_ok :
    (buf : List ℕ) (type size : ℕ) {m : DecodedMessage}
    → size ≤ length buf
    → decode_payload type buf header_size ≡ some m
    → decode_sized type size size buf ≡ some (ok m)
unfolding decode_sized
sized_ok buf type size hs hp = rw (==_refl size, le→ltb (length buf) size hs, hp)

-- A message whose header names its type and size, and that is all there.
decode_at :
    (buf : List ℕ) (type size : ℕ) {m : DecodedMessage}
    → get_u8 buf 0 ≡ some type
    → get_u16 buf 1 ≡ some size
    → wire_size_for type ≡ ok size
    → header_size ≤ size
    → size ≤ length buf
    → decode_payload type buf header_size ≡ some m
    → decode buf ≡ some (ok m)
unfolding decode decode_known
decode_at buf type size ht hl hw h3 hs hp =
    rw (le→ltb (length buf) header_size (omega arith), ht, hl, hw) (sized_ok buf type size hs hp)

cancel_fields :
    (m : CancelOrder) (rest : List ℕ)
    → IsCancel m
    → decode_cancel_order (wire (cancel m) ++ rest) 3 ≡ some m
unfolding decode_cancel_order
cancel_fields m rest v = rw (
  get_u64_lem (wire (cancel m) ++ rest) 3 m.seq_num v.seq_num
      (refl, refl, refl, refl, refl, refl, refl, refl),
  get_u64_lem (wire (cancel m) ++ rest) 11 m.order_id v.order_id
      (refl, refl, refl, refl, refl, refl, refl, refl),
  get_u64_lem (wire (cancel m) ++ rest) 19 m.timestamp v.timestamp
      (refl, refl, refl, refl, refl, refl, refl, refl),
)

execute_fields :
    (m : ExecuteOrder) (rest : List ℕ)
    → IsExecute m
    → decode_execute_order (wire (execute m) ++ rest) 3 ≡ some m
unfolding decode_execute_order
execute_fields m rest v = rw (
  get_u64_lem (wire (execute m) ++ rest) 3 m.seq_num v.seq_num
      (refl, refl, refl, refl, refl, refl, refl, refl),
  get_u64_lem (wire (execute m) ++ rest) 11 m.order_id v.order_id
      (refl, refl, refl, refl, refl, refl, refl, refl),
  get_u32_lem (wire (execute m) ++ rest) 19 m.executed_quantity v.executed_quantity
      (refl, refl, refl, refl),
  get_u64_lem (wire (execute m) ++ rest) 23 m.timestamp v.timestamp
      (refl, refl, refl, refl, refl, refl, refl, refl),
)

replace_fields :
    (m : ReplaceOrder) (rest : List ℕ)
    → IsReplace m
    → decode_replace_order (wire (replace m) ++ rest) 3 ≡ some m
unfolding decode_replace_order get_i64
replace_fields m rest v = rw (
  get_u64_lem (wire (replace m) ++ rest) 3 m.seq_num v.seq_num
      (refl, refl, refl, refl, refl, refl, refl, refl),
  get_u64_lem (wire (replace m) ++ rest) 11 m.old_order_id v.old_order_id
      (refl, refl, refl, refl, refl, refl, refl, refl),
  get_u64_lem (wire (replace m) ++ rest) 19 m.new_order_id v.new_order_id
      (refl, refl, refl, refl, refl, refl, refl, refl),
  get_u64_lem (wire (replace m) ++ rest) 27 (to_u64 m.price) (to_u64-lt m.price)
      (refl, refl, refl, refl, refl, refl, refl, refl),
  to_i64-to_u64 m.price v.price,
  get_u32_lem (wire (replace m) ++ rest) 35 m.quantity v.quantity (refl, refl, refl, refl),
  get_u64_lem (wire (replace m) ++ rest) 39 m.timestamp v.timestamp
      (refl, refl, refl, refl, refl, refl, refl, refl),
)

cancel_wire :
    (m : CancelOrder) (rest : List ℕ)
    → IsCancel m
    → decode (wire (cancel m) ++ rest) ≡ some (ok (cancel m))
unfolding decode_payload get_u8 get_u16 wire_size_for
cancel_wire m rest v =
    decode_at (wire (cancel m) ++ rest) type_cancel cancel_wire_size refl refl refl (omega arith)
      (omega arith) (ap (Option.map cancel) (cancel_fields m rest v))

execute_wire :
    (m : ExecuteOrder) (rest : List ℕ)
    → IsExecute m
    → decode (wire (execute m) ++ rest) ≡ some (ok (execute m))
unfolding decode_payload get_u8 get_u16 wire_size_for
execute_wire m rest v =
    decode_at (wire (execute m) ++ rest) type_execute execute_wire_size refl refl refl (omega arith)
      (omega arith) (ap (Option.map execute) (execute_fields m rest v))

replace_wire :
    (m : ReplaceOrder) (rest : List ℕ)
    → IsReplace m
    → decode (wire (replace m) ++ rest) ≡ some (ok (replace m))
unfolding decode_payload get_u8 get_u16 wire_size_for
replace_wire m rest v =
    decode_at (wire (replace m) ++ rest) type_replace replace_wire_size refl refl refl (omega arith)
      (omega arith) (ap (Option.map replace) (replace_fields m rest v))

-- An AddOrder whose symbol is written out: its bytes, and what is read back.
module _ (seq_num order_id side quantity timestamp : ℕ) (price : ℤ) (a b c d e f g h : ℕ)
    (rest : List ℕ) where
  abbrev message : AddOrder
  message = record {
    seq_num = seq_num;
    order_id = order_id;
    symbol = a ∷ b ∷ c ∷ d ∷ e ∷ f ∷ g ∷ h ∷ [];
    side = side;
    price = price;
    quantity = quantity;
    timestamp = timestamp;
  }

  abbrev bytes : List ℕ
  bytes = wire (add message) ++ rest

  add_fields : IsAdd message → decode_add_order bytes 3 ≡ some message
  unfolding decode_add_order get_chars get_u8 get_i64
  add_fields v = rw (
    get_u64_lem bytes 3 seq_num v.seq_num (refl, refl, refl, refl, refl, refl, refl, refl),
    get_u64_lem bytes 11 order_id v.order_id (refl, refl, refl, refl, refl, refl, refl, refl),
    get_u64_lem bytes 28 (to_u64 price) (to_u64-lt price)
        (refl, refl, refl, refl, refl, refl, refl, refl),
    to_i64-to_u64 price v.price,
    get_u32_lem bytes 36 quantity v.quantity (refl, refl, refl, refl),
    get_u64_lem bytes 40 timestamp v.timestamp (refl, refl, refl, refl, refl, refl, refl, refl),
    mod-eq_of_lt v.symbol.1.0,
    mod-eq_of_lt v.symbol.1.1.0,
    mod-eq_of_lt v.symbol.1.1.1.0,
    mod-eq_of_lt v.symbol.1.1.1.1.0,
    mod-eq_of_lt v.symbol.1.1.1.1.1.0,
    mod-eq_of_lt v.symbol.1.1.1.1.1.1.0,
    mod-eq_of_lt v.symbol.1.1.1.1.1.1.1.0,
    mod-eq_of_lt v.symbol.1.1.1.1.1.1.1.1.0,
    mod-eq_of_lt v.side,
  )

  add_explicit : IsAdd message → decode bytes ≡ some (ok (add message))
  unfolding decode_payload get_u8 get_u16 wire_size_for
  add_explicit v =
      decode_at bytes type_add add_wire_size refl refl refl (omega arith) (omega arith)
        (ap (Option.map add) (add_fields v))

add_wire :
    (m : AddOrder) (rest : List ℕ) → IsAdd m → decode (wire (add m) ++ rest) ≡ some (ok (add m))
add_wire m rest v =
    subst
      (λ s.
        IsAdd (record m { symbol = s })
        → decode (wire (add (record m { symbol = s })) ++ rest)
          ≡ some (ok (add (record m { symbol = s }))))
      (sym (symbol_chars m.symbol v.symbol.0))
      (λ w.
        add_explicit m.seq_num m.order_id m.side m.quantity m.timestamp m.price _ _ _ _ _ _ _ _ rest
          w)
      v

-- `decode` reads back every message from its bytes, whatever follows them.
pub decode-wire :
    (m : DecodedMessage) (rest : List ℕ) → IsMessage m → decode (wire m ++ rest) ≡ some (ok m)
decode-wire (add m) rest v = add_wire m rest v
decode-wire (cancel m) rest v = cancel_wire m rest v
decode-wire (execute m) rest v = execute_wire m rest v
decode-wire (replace m) rest v = replace_wire m rest v
