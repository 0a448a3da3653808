-- ===== src/Protocol/Decoder/Errors.antt =====
-- What `decode` does on bytes that are no message: one error for each way in which they fail.
use low_latency_market_data.Common.{
  get_elem?-below, ◌+◌, ℕ, ◌≤◌, ◌<◌, ◌≡◌, ◌≢◌, refl, sym, ap, ◌∙◌, List, length, ltb, ltb→le,
  ltb→lt, Bool-cases, ==_iff, inl, inr, Expected, ok, err, arith, Option, some, ◌==◌, ◌⊎◌,
}
use low_latency_market_data.Protocol.Messages.{
  DecodedMessage, type_add, type_cancel, type_execute, type_replace, header_size, add_wire_size,
  cancel_wire_size, execute_wire_size, replace_wire_size, add, cancel, execute, replace,
}
use low_latency_market_data.Protocol.ByteOrder.{get_u8, get_u16}
use low_latency_market_data.Protocol.Encoder.Wire.{wire_size}
use low_latency_market_data.Protocol.Decoder.Within.{
  decode_add_order-within, decode_cancel_order-within, decode_execute_order-within,
  decode_replace_order-within,
}
use low_latency_market_data.Protocol.Decoder.{
  DecodeError, truncated_message, invalid_message_type, length_mismatch, decode_payload,
  decode_sized, decode_known, decode, wire_size_for,
}

-- The type byte of a message.
abbrev pub type_of : DecodedMessage → ℕ
type_of (add m) = type_add
type_of (cancel m) = type_cancel
type_of (execute m) = type_execute
type_of (replace m) = type_replace

-- The type bytes that `wire_size_for` knows, with their sizes.
abbrev pub Known : ℕ → ℕ → Type 0
Known type size =
    ((type ≡ type_add) × (size ≡ add_wire_size))
    ⊎ (((type ≡ type_cancel) × (size ≡ cancel_wire_size))
        ⊎ (((type ≡ type_execute) × (size ≡ execute_wire_size))
            ⊎ ((type ≡ type_replace) × (size ≡ replace_wire_size))))

wire_size_for-Known : (type : ℕ) {size : ℕ} → wire_size_for type ≡ ok size → Known type size
unfolding wire_size_for
wire_size_for-Known type h = ground arith

-- The second switch has a case for every type that the first one knows.
abbrev Payload : ℕ → ℕ → Option DecodedMessage → Type 0
Payload type size r =
    (m : DecodedMessage) × (r ≡ some m) × (type_of m ≡ type) × (wire_size m ≡ size)

decode_payload-Known :
    (type size : ℕ) (buf : List ℕ)
    → size ≤ length buf
    → Known type size
    → Payload type size (decode_payload type buf header_size)
unfolding decode_payload
decode_payload-Known type size buf long (inl (t, s)) =
    let (m, e) = decode_add_order-within buf header_size (omega arith) in
    rw (t, s, e) (add m, refl, refl, refl)
decode_payload-Known type size buf long (inr (inl (t, s))) =
    let (m, e) = decode_cancel_order-within buf header_size (omega arith) in
    rw (t, s, e) (cancel m, refl, refl, refl)
decode_payload-Known type size buf long (inr (inr (inl (t, s)))) =
    let (m, e) = decode_execute_order-within buf header_size (omega arith) in
    rw (t, s, e) (execute m, refl, refl, refl)
decode_payload-Known type size buf long (inr (inr (inr (t, s)))) =
    let (m, e) = decode_replace_order-within buf header_size (omega arith) in
    rw (t, s, e) (replace m, refl, refl, refl)

-- What `decode` answers on a buffer of a known type: the three checks in their order.
abbrev Sized : ℕ → ℕ → List ℕ → ℕ → Option (Expected DecodeError DecodedMessage) → Type 0
Sized type len buf size r =
    ((len ≢ size) × (r ≡ some (err length_mismatch)))
    ⊎ (((len ≡ size) × (length buf < size) × (r ≡ some (err truncated_message)))
        ⊎ ((m : DecodedMessage) × (r ≡ some (ok m))
            × (type_of m ≡ type)
            × (wire_size m ≡ size)
            × (len ≡ size)
            × (size ≤ length buf)))

decode_sized-Sized :
    (type len : ℕ) (buf : List ℕ) (size : ℕ)
    → Known type size
    → Sized type len buf size (decode_sized type len size buf)
unfolding decode_sized
decode_sized-Sized type len buf size k = elim (Bool-cases (len == size)) [
  | inl same ↦ elim (Bool-cases (ltb (length buf) len)) [
    | inl short ↦ rw (same, short) (inr (inl ((==_iff len size).0 same, ground arith, refl)))
    | inr long ↦
        let fit = (==_iff len size).0 same in
        let there : size ≤ length buf = ground arith in
        let (m, pm, tm, sm) = decode_payload-Known type size buf there k in
        rw (same, long, pm) (inr (inr (m, refl, tm, sm, fit, there)))
  ]
  | inr other ↦ rw other (inl (ground arith, refl))
]

wire_size_for-err :
    (type : ℕ) {e : DecodeError} → wire_size_for type ≡ err e → e ≡ invalid_message_type
unfolding wire_size_for
wire_size_for-err type h = ground arith

Expected-cases :
    {E A : Type 0} (r : Expected E A) → ((e : E) × (r ≡ err e)) ⊎ ((a : A) × (r ≡ ok a))
Expected-cases (ok a) = inr (a, refl)
Expected-cases (err e) = inl (e, refl)

-- Which error `decode` gives when, and when it accepts.
pub data Outcome (buf : List ℕ) (r : Option (Expected DecodeError DecodedMessage)) : Type 0 where
  no_header : length buf < header_size → r ≡ some (err truncated_message) → Outcome buf r
  unknown_type :
      (type : ℕ)
      → header_size ≤ length buf
      → get_u8 buf 0 ≡ some type
      → (type < type_add) ⊎ (type_replace < type)
      → r ≡ some (err invalid_message_type)
      → Outcome buf r
  wrong_length :
      (type len size : ℕ)
      → header_size ≤ length buf
      → get_u8 buf 0 ≡ some type
      → get_u16 buf 1 ≡ some len
      → Known type size
      → len ≢ size
      → r ≡ some (err length_mismatch)
      → Outcome buf r
  cut_short :
      (type size : ℕ)
      → header_size ≤ length buf
      → get_u8 buf 0 ≡ some type
      → get_u16 buf 1 ≡ some size
      → Known type size
      → length buf < size
      → r ≡ some (err truncated_message)
      → Outcome buf r
  accepted :
      (m : DecodedMessage)
      → get_u8 buf 0 ≡ some (type_of m)
      → get_u16 buf 1 ≡ some (wire_size m)
      → wire_size m ≤ length buf
      → r ≡ some (ok m)
      → Outcome buf r

unknown_of_err :
    (type : ℕ)
    → wire_size_for type ≡ err invalid_message_type
    → (type < type_add) ⊎ (type_replace < type)
unfolding wire_size_for
unknown_of_err type h = ground arith

Sized-Outcome :
    (buf : List ℕ) (type len size : ℕ) {r : Option (Expected DecodeError DecodedMessage)}
    → header_size ≤ length buf
    → get_u8 buf 0 ≡ some type
    → get_u16 buf 1 ≡ some len
    → Known type size
    → Sized type len buf size r
    → Outcome buf r
Sized-Outcome buf type len size h t l k (inl (ne, e)) = wrong_length type len size h t l k ne e
Sized-Outcome buf type len size h t l k (inr (inl (same, short, e))) =
    cut_short type size h t (l ∙ ap some same) k short e
Sized-Outcome buf type len size h t l k (inr (inr (m, e, tm, s, same, long))) =
    accepted m (t ∙ ap some (sym tm)) (l ∙ ap some (same ∙ sym s)) (rw s long) e

-- The two bytes of the declared length are there.
length_there : (buf : List ℕ) → header_size ≤ length buf → (len : ℕ) × (get_u16 buf 1 ≡ some len)
unfolding get_u16 get_u8
length_there buf h =
    let (a, first) = get_elem?-below buf 1 (omega arith) in
    let (b, second) = get_elem?-below buf (1 + 1) (omega arith) in rw (first, second) (_, refl)

type_there : (buf : List ℕ) → header_size ≤ length buf → (type : ℕ) × (get_u8 buf 0 ≡ some type)
unfolding get_u8
type_there buf h = get_elem?-below buf 0 (omega arith)

-- `decode` ends on every input with a message or an error, never at its `std::unreachable()`, and reads
-- nothing behind the end of the input. An input shorter than a header is truncated. One with a header
-- is refused as invalid where its type byte is outside 1 to 4; where the type is known, as a mismatch
-- if the declared length is not the type's size, and as truncated if it is but the input is shorter.
-- Anything else is accepted, as a message of that type.
pub decode-Outcome : (buf : List ℕ) → Outcome buf (decode buf)
unfolding decode decode_known
decode-Outcome buf = elim (Bool-cases (ltb (length buf) header_size)) [
  | inl short ↦ no_header (ltb→lt (length buf) header_size short) (rw short)
  | inr long ↦
      let h = ltb→le (length buf) header_size long in
      let (type, t) = type_there buf h in
      let (len, l) = length_there buf h in
      elim (Expected-cases (wire_size_for type)) [
        | inl (e, u) ↦
            unknown_type type h t (unknown_of_err type (u ∙ ap err (wire_size_for-err type u)))
              (rw (long, t, l, u, wire_size_for-err type u))
        | inr (size, k) ↦
            let known = wire_size_for-Known type k in
            Sized-Outcome buf type len size h t l known
              (rw (long, t, l, k) (decode_sized-Sized type len buf size known))
      ]
]
