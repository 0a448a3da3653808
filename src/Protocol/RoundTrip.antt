-- ===== src/Protocol/RoundTrip.antt =====
-- `encode` and `decode` together.
use mathlib.Core.Option.{some-injective}
use low_latency_market_data.Common.{
  ◌⊎◌, ℕ, ◌+◌, ◌≤◌, ◌<◌, ◌≡◌, refl, sym, ap, ◌∙◌, List, ◌∷◌, ◌++◌, get_elem?-append, length-append,
  err, length, drop, drop-append, le→ltb, Expected, ok, Option, some, arith,
}
use low_latency_market_data.Protocol.Messages.{
  DecodedMessage, add, cancel, execute, replace, IsMessage, header_size, type_add, type_replace,
}
use low_latency_market_data.Protocol.Encoder.{encode}
use low_latency_market_data.Protocol.Encoder.Wire.{
  wire, wire_size, HasSymbol, length-wire, encode_lem,
}
use low_latency_market_data.Protocol.ByteOrder.{get_u8, get_u16}
use low_latency_market_data.Protocol.Decoder.{DecodeError, truncated_message, decode}
use low_latency_market_data.Protocol.Decoder.Errors.{
  Known, type_of, Outcome, no_header, unknown_type, wrong_length, cut_short, accepted,
  decode-Outcome,
}
use low_latency_market_data.Protocol.Decoder.Wire.{decode-wire}

IsMessage→HasSymbol : (m : DecodedMessage) → IsMessage m → HasSymbol m
IsMessage→HasSymbol (add m) v = v.symbol.0
IsMessage→HasSymbol (cancel m) v = tt
IsMessage→HasSymbol (execute m) v = tt
IsMessage→HasSymbol (replace m) v = tt

IsMessage→length : (m : DecodedMessage) → IsMessage m → length (wire m) ≡ wire_size m
IsMessage→length m v = length-wire m (IsMessage→HasSymbol m v)

fits :
    (m : DecodedMessage) (out : List ℕ)
    → IsMessage m
    → wire_size m ≤ length out
    → encode m out ≡ some (ok (wire_size m), wire m ++ drop (wire_size m) out)
fits m out v h =
    encode_lem m out (IsMessage→HasSymbol m v) ∙ rw (le→ltb (length out) (wire_size m) h)

-- Every message whose fields fit their C++ types, encoded into a span with room for it, is read back
-- by `decode`; `encode` returns its wire size, and leaves the bytes of the span behind it as they were.
pub decode-encode :
    (m : DecodedMessage) (out : List ℕ)
    → IsMessage m
    → wire_size m ≤ length out
    → (out' : List ℕ) × (encode m out ≡ some (ok (wire_size m), out'))
      × (decode out' ≡ some (ok m))
      × (drop (wire_size m) out' ≡ drop (wire_size m) out)
decode-encode m out v h = (
  wire m ++ drop (wire_size m) out,
  fits m out v h,
  decode-wire m (drop (wire_size m) out) v,
  rest (wire m) (wire_size m) (IsMessage→length m v),
)
  where
    rest : (xs : List ℕ) (n : ℕ) → length xs ≡ n → drop n (xs ++ drop n out) ≡ drop n out
    rest xs n e = rw (← e) (drop-append xs (drop (length xs) out))

wire_type : (m : DecodedMessage) → get_u8 (wire m) 0 ≡ some (type_of m)
unfolding get_u8
wire_type (add m) = refl
wire_type (cancel m) = refl
wire_type (execute m) = refl
wire_type (replace m) = refl

wire_length : (m : DecodedMessage) → get_u16 (wire m) 1 ≡ some (wire_size m)
unfolding get_u16
wire_length (add m) = refl
wire_length (cancel m) = refl
wire_length (execute m) = refl
wire_length (replace m) = refl

get_u8_front :
    (front back : List ℕ) → header_size ≤ length front → get_u8 (front ++ back) 0 ≡ get_u8 front 0
unfolding get_u8
get_u8_front front back h = get_elem?-append front back 0 (omega arith)

get_u16_front :
    (front back : List ℕ) → header_size ≤ length front → get_u16 (front ++ back) 1 ≡ get_u16 front 1
unfolding get_u16
get_u16_front front back h =
    rw (
      get_elem?-append front back 1 (omega arith),
      get_elem?-append front back (1 + 1) (omega arith),
    )

header-le-wire_size : (m : DecodedMessage) → header_size ≤ wire_size m
header-le-wire_size (add m) = omega arith
header-le-wire_size (cancel m) = omega arith
header-le-wire_size (execute m) = omega arith
header-le-wire_size (replace m) = omega arith

not_unknown :
    (m : DecodedMessage) (type : ℕ)
    → type_of m ≡ type
    → ¬ ((type < type_add) ⊎ (type_replace < type))
not_unknown (add m) type e u = ground arith
not_unknown (cancel m) type e u = ground arith
not_unknown (execute m) type e u = ground arith
not_unknown (replace m) type e u = ground arith

wire_size-Known :
    (m : DecodedMessage) (type size : ℕ) → type_of m ≡ type → Known type size → wire_size m ≡ size
wire_size-Known (add m) type size e k = ground arith
wire_size-Known (cancel m) type size e k = ground arith
wire_size-Known (execute m) type size e k = ground arith
wire_size-Known (replace m) type size e k = ground arith

short-Outcome :
    (m : DecodedMessage) (buf : List ℕ) {r : Option (Expected DecodeError DecodedMessage)}
    → (header_size ≤ length buf
        → (get_u8 buf 0 ≡ some (type_of m)) × (get_u16 buf 1 ≡ some (wire_size m)))
    → length buf < wire_size m
    → Outcome buf r
    → r ≡ some (err truncated_message)
short-Outcome m buf head short (no_header h e) = e
short-Outcome m buf head short (unknown_type type h t u e) =
    absurd (not_unknown m type (some-injective _ _ (sym (head h).0 ∙ t)) u)
short-Outcome m buf head short (wrong_length type len size h t l k ne e) = absurd (
    ne (
      sym (some-injective _ _ (sym (head h).1 ∙ l))
      ∙ wire_size-Known m type size (some-injective _ _ (sym (head h).0 ∙ t)) k))
short-Outcome m buf head short (cut_short type size h t l k cut e) = e
short-Outcome m buf head short (accepted m' t s fit e) =
    let h : header_size ≤ length buf = omega (arith, header-le-wire_size m') in
    absurd (omega (arith, some-injective _ _ (sym (head h).1 ∙ s)))

-- Every proper prefix of a message's bytes is answered with `truncated_message`.
pub decode_truncated :
    (m : DecodedMessage) (front back : List ℕ) (x : ℕ)
    → IsMessage m
    → wire m ≡ front ++ (x ∷ back)
    → decode front ≡ some (err truncated_message)
decode_truncated m front back x v e =
    short-Outcome m front
      (λ h. (
        sym (get_u8_front front (x ∷ back) h) ∙ ap (λ b. get_u8 b 0) (sym e) ∙ wire_type m,
        sym (get_u16_front front (x ∷ back) h) ∙ ap (λ b. get_u16 b 1) (sym e) ∙ wire_length m,
      ))
      (omega (arith, ap length e, length-append front (x ∷ back), IsMessage→length m v))
      (decode-Outcome front)
