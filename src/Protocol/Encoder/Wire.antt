-- ===== src/Protocol/Encoder/Wire.antt =====
-- The bytes of each message on the wire, and `encode` against them.
use low_latency_market_data.Common.{
  ℕ, ◌/◌, ◌%◌, ◌≤◌, ◌≡◌, refl, ap, ◌∙◌, List, [], ◌∷◌, ◌++◌, length, drop, map, ltb, ltb→le,
  Bool-cases, inl, inr, Expected, ok, err, arith, get_or, if◌then◌else◌, Option, some, ◌>>=◌,
}
use low_latency_market_data.Protocol.Messages.{
  AddOrder, CancelOrder, ExecuteOrder, ReplaceOrder, DecodedMessage, add, cancel, execute, replace,
  type_add, type_cancel, type_execute, type_replace, symbol_len, Symbol, add_wire_size,
  cancel_wire_size, execute_wire_size, replace_wire_size,
}
use low_latency_market_data.Protocol.ByteOrder.{to_u64}
use low_latency_market_data.Protocol.ByteOrder.Writes.{
  write_list, le_bytes, write_list_front, next_u8, next_u16, next_u32, next_u64, next_i64,
}
use low_latency_market_data.Protocol.Encoder.{
  EncodeError, buffer_too_small, put_chars, write_add, write_cancel, write_execute, write_replace,
  encode_add, encode_cancel, encode_execute, encode_replace, encode,
}

abbrev pub u64 : ℕ → List ℕ
u64 v = le_bytes 8 0 v

abbrev pub u32 : ℕ → List ℕ
u32 v = le_bytes 4 0 v

-- The three bytes [type][length: u16] of a header.
abbrev header : ℕ → ℕ → List ℕ
header type len = (type % 256) ∷ (len % 256) ∷ (len / 256 % 256) ∷ []

abbrev chars : Symbol → List ℕ
chars s = map (λ c. c % 256) s

-- [type][length][payload], each field little-endian in the order of the struct.
abbrev pub wire : DecodedMessage → List ℕ
wire (add m) =
    header type_add add_wire_size
    ++ (u64 m.seq_num
        ++ (u64 m.order_id
            ++ (chars m.symbol
                ++ ((m.side % 256)
                    ∷ (u64 (to_u64 m.price) ++ (u32 m.quantity ++ u64 m.timestamp))))))
wire (cancel m) =
    header type_cancel cancel_wire_size ++ (u64 m.seq_num ++ (u64 m.order_id ++ u64 m.timestamp))
wire (execute m) =
    header type_execute execute_wire_size
    ++ (u64 m.seq_num ++ (u64 m.order_id ++ (u32 m.executed_quantity ++ u64 m.timestamp)))
wire (replace m) =
    header type_replace replace_wire_size
    ++ (u64 m.seq_num
        ++ (u64 m.old_order_id
            ++ (u64 m.new_order_id
                ++ (u64 (to_u64 m.price) ++ (u32 m.quantity ++ u64 m.timestamp)))))

-- A symbol of eight characters, written out.
pub symbol_chars :
    (s : Symbol)
    → length s ≡ symbol_len
    → s
      ≡ get_or s 0 0
        ∷ get_or s 1 0
        ∷ get_or s 2 0
        ∷ get_or s 3 0
        ∷ get_or s 4 0
        ∷ get_or s 5 0
        ∷ get_or s 6 0
        ∷ get_or s 7 0
        ∷ []
symbol_chars (a ∷ b ∷ c ∷ d ∷ e ∷ f ∷ g ∷ h ∷ []) p = refl
symbol_chars _ p = absurd (omega arith)

-- The `put_*` calls of a message write its bytes one after the other from the front.
write_cancel-wire :
    (m : CancelOrder) (out : List ℕ)
    → cancel_wire_size ≤ length out
    → write_cancel m out ≡ some (write_list out 0 (wire (cancel m)))
unfolding write_cancel write_list
write_cancel-wire m out h =
    let x1 = (type_cancel % 256) ∷ [] in
    let x3 = header type_cancel cancel_wire_size in
    let x11 = x3 ++ u64 m.seq_num in
    let x19 = x11 ++ u64 m.order_id in
    rw
      (
        next_u8 out [] type_cancel (omega arith),
        next_u16 out x1 (cancel_wire_size % 65536) (omega arith),
        next_u64 out x3 m.seq_num (omega arith),
        next_u64 out x11 m.order_id (omega arith),
        next_u64 out x19 m.timestamp (omega arith),
      )
      refl

write_execute-wire :
    (m : ExecuteOrder) (out : List ℕ)
    → execute_wire_size ≤ length out
    → write_execute m out ≡ some (write_list out 0 (wire (execute m)))
unfolding write_execute write_list
write_execute-wire m out h =
    let x1 = (type_execute % 256) ∷ [] in
    let x3 = header type_execute execute_wire_size in
    let x11 = x3 ++ u64 m.seq_num in
    let x19 = x11 ++ u64 m.order_id in
    let x23 = x19 ++ u32 m.executed_quantity in
    rw
      (
        next_u8 out [] type_execute (omega arith),
        next_u16 out x1 (execute_wire_size % 65536) (omega arith),
        next_u64 out x3 m.seq_num (omega arith),
        next_u64 out x11 m.order_id (omega arith),
        next_u32 out x19 m.executed_quantity (omega arith),
        next_u64 out x23 m.timestamp (omega arith),
      )
      refl

write_replace-wire :
    (m : ReplaceOrder) (out : List ℕ)
    → replace_wire_size ≤ length out
    → write_replace m out ≡ some (write_list out 0 (wire (replace m)))
unfolding write_replace write_list
write_replace-wire m out h =
    let x1 = (type_replace % 256) ∷ [] in
    let x3 = header type_replace replace_wire_size in
    let x11 = x3 ++ u64 m.seq_num in
    let x19 = x11 ++ u64 m.old_order_id in
    let x27 = x19 ++ u64 m.new_order_id in
    let x35 = x27 ++ u64 (to_u64 m.price) in
    let x39 = x35 ++ u32 m.quantity in
    rw
      (
        next_u8 out [] type_replace (omega arith),
        next_u16 out x1 (replace_wire_size % 65536) (omega arith),
        next_u64 out x3 m.seq_num (omega arith),
        next_u64 out x11 m.old_order_id (omega arith),
        next_u64 out x19 m.new_order_id (omega arith),
        next_i64 out x27 m.price (omega arith),
        next_u32 out x35 m.quantity (omega arith),
        next_u64 out x39 m.timestamp (omega arith),
      )
      refl

write_add_explicit :
    (m : AddOrder) (a b c d e f g h : ℕ) (out : List ℕ)
    → add_wire_size ≤ length out
    → m.symbol ≡ a ∷ b ∷ c ∷ d ∷ e ∷ f ∷ g ∷ h ∷ []
    → write_add m out ≡ some (write_list out 0 (wire (add m)))
unfolding write_add put_chars write_list
write_add_explicit m a b c d e f g h out room p =
    let x1 = (type_add % 256) ∷ [] in
    let x3 = header type_add add_wire_size in
    let x11 = x3 ++ u64 m.seq_num in
    let x19 = x11 ++ u64 m.order_id in
    let x20 = x19 ++ (a % 256) ∷ [] in
    let x21 = x20 ++ (b % 256) ∷ [] in
    let x22 = x21 ++ (c % 256) ∷ [] in
    let x23 = x22 ++ (d % 256) ∷ [] in
    let x24 = x23 ++ (e % 256) ∷ [] in
    let x25 = x24 ++ (f % 256) ∷ [] in
    let x26 = x25 ++ (g % 256) ∷ [] in
    let x27 = x26 ++ (h % 256) ∷ [] in
    let x28 = x27 ++ (m.side % 256) ∷ [] in
    let x36 = x28 ++ u64 (to_u64 m.price) in
    let x40 = x36 ++ u32 m.quantity in
    rw
      (
        p,
        next_u8 out [] type_add (omega arith),
        next_u16 out x1 (add_wire_size % 65536) (omega arith),
        next_u64 out x3 m.seq_num (omega arith),
        next_u64 out x11 m.order_id (omega arith),
        next_u8 out x19 a (omega arith),
        next_u8 out x20 b (omega arith),
        next_u8 out x21 c (omega arith),
        next_u8 out x22 d (omega arith),
        next_u8 out x23 e (omega arith),
        next_u8 out x24 f (omega arith),
        next_u8 out x25 g (omega arith),
        next_u8 out x26 h (omega arith),
        next_u8 out x27 m.side (omega arith),
        next_i64 out x28 m.price (omega arith),
        next_u32 out x36 m.quantity (omega arith),
        next_u64 out x40 m.timestamp (omega arith),
      )
      refl

write_add-wire :
    (m : AddOrder) (out : List ℕ)
    → length m.symbol ≡ symbol_len
    → add_wire_size ≤ length out
    → write_add m out ≡ some (write_list out 0 (wire (add m)))
write_add-wire m out p room =
    write_add_explicit m _ _ _ _ _ _ _ _ out room (symbol_chars m.symbol p)

abbrev pub wire_size : DecodedMessage → ℕ
wire_size (add m) = add_wire_size
wire_size (cancel m) = cancel_wire_size
wire_size (execute m) = execute_wire_size
wire_size (replace m) = replace_wire_size

-- A symbol is an array of eight characters.
abbrev pub HasSymbol : DecodedMessage → Type 0
HasSymbol (add m) = length m.symbol ≡ symbol_len
HasSymbol _ = Unit {0}

length-wire_explicit :
    (m : AddOrder) (a b c d e f g h : ℕ)
    → m.symbol ≡ a ∷ b ∷ c ∷ d ∷ e ∷ f ∷ g ∷ h ∷ []
    → length (wire (add m)) ≡ add_wire_size
length-wire_explicit m a b c d e f g h p = rw p

pub length-wire : (m : DecodedMessage) → HasSymbol m → length (wire m) ≡ wire_size m
length-wire (add m) p = length-wire_explicit m _ _ _ _ _ _ _ _ (symbol_chars m.symbol p)
length-wire (cancel m) p = refl
length-wire (execute m) p = refl
length-wire (replace m) p = refl

-- The bytes of `m` at the front of a span that has room for them.
written :
    (m : DecodedMessage) (out : List ℕ)
    → HasSymbol m
    → wire_size m ≤ length out
    → write_list out 0 (wire m) ≡ wire m ++ drop (wire_size m) out
written m out p h =
    write_list_front (wire m) out (omega (arith, length-wire m p))
    ∙ ap (λ n. wire m ++ drop n out) (length-wire m p)

-- What `encode` does on a span: refused and untouched, or the message's bytes at the front.
abbrev pub encoded : DecodedMessage → List ℕ → Expected EncodeError ℕ × List ℕ
encoded m out =
    if ltb (length out) (wire_size m)
    then (err buffer_too_small, out)
    else (ok (wire_size m), wire m ++ drop (wire_size m) out)

with_room :
    (m : DecodedMessage) (out : List ℕ) (body : Option (List ℕ))
    → HasSymbol m
    → (wire_size m ≤ length out → body ≡ some (write_list out 0 (wire m)))
    → (if ltb (length out) (wire_size m)
        then some (err buffer_too_small, out)
        else body >>= (λ out'. some (ok (wire_size m), out')))
      ≡ some (encoded m out)
with_room m out body p e = elim (Bool-cases (ltb (length out) (wire_size m))) [
  | inl short ↦ rw short
  | inr long ↦
      let room = ltb→le (length out) (wire_size m) long in rw (long, e room, written m out p room)
]

-- Each `encode` refuses a span that is too short and leaves it alone; otherwise it writes the bytes
-- of the message at the front of the span, leaves the rest alone and returns their number. It writes
-- nothing behind the end of the span.
pub encode_lem :
    (m : DecodedMessage) (out : List ℕ) → HasSymbol m → encode m out ≡ some (encoded m out)
unfolding encode encode_add encode_cancel encode_execute encode_replace
encode_lem (add m) out p = with_room (add m) out _ p (write_add-wire m out p)
encode_lem (cancel m) out p = with_room (cancel m) out _ p (write_cancel-wire m out)
encode_lem (execute m) out p = with_room (execute m) out _ p (write_execute-wire m out)
encode_lem (replace m) out p = with_room (replace m) out _ p (write_replace-wire m out)
