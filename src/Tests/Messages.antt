-- ===== src/Tests/Messages.antt =====
-- The wire format on concrete messages.
use low_latency_market_data.Common.{
  List, ℕ, ◌≡◌, refl, [], ◌∷◌, ◌++◌, some, ok, err, drop, take, replicate, arith,
}
use low_latency_market_data.Protocol.Messages.{add, execute, IsAdd, IsExecute}
use low_latency_market_data.Protocol.Encoder.{encode}
use low_latency_market_data.Protocol.Encoder.Wire.{wire, encode_lem}
use low_latency_market_data.Protocol.Decoder.{decode, truncated_message}
use low_latency_market_data.Protocol.Decoder.Errors.{Outcome, decode-Outcome}
use low_latency_market_data.Protocol.RoundTrip.{decode-encode, decode_truncated}
use low_latency_market_data.Tests.Data.{bid, fill_part}

pub bid-IsAdd : IsAdd bid
bid-IsAdd = record {
  seq_num = omega arith;
  order_id = omega arith;
  symbol = (
    refl,
    (
      omega arith,
      (
        omega arith,
        (
          omega arith,
          (omega arith, (omega arith, (omega arith, (omega arith, (omega arith, tt))))),
        ),
      ),
    ),
  );
  side = omega arith;
  price = omega arith;
  quantity = omega arith;
  timestamp = omega arith;
}

fill_part-IsExecute : IsExecute fill_part
fill_part-IsExecute = record {
  seq_num = omega arith;
  order_id = omega arith;
  executed_quantity = omega arith;
  timestamp = omega arith;
}

decode-encode_example :
    (out' : List ℕ) × (encode (add bid) (replicate 60 1) ≡ some (ok 48, out'))
    × (decode out' ≡ some (ok (add bid)))
    × (drop 48 out' ≡ replicate 12 1)
decode-encode_example = decode-encode (add bid) (replicate 60 1) bid-IsAdd (omega arith)

decode_truncated_example :
    decode (take 20 (wire (execute fill_part))) ≡ some (err truncated_message)
decode_truncated_example =
    decode_truncated (execute fill_part) (take 20 (wire (execute fill_part)))
      (drop 21 (wire (execute fill_part))) 0 fill_part-IsExecute refl

encode_lem_example :
    encode (execute fill_part) (replicate 40 2)
    ≡ some (ok 31, wire (execute fill_part) ++ replicate 9 2)
encode_lem_example = encode_lem (execute fill_part) (replicate 40 2) tt

decode-Outcome_example : Outcome (1 ∷ 0 ∷ 48 ∷ []) (decode (1 ∷ 0 ∷ 48 ∷ []))
decode-Outcome_example = decode-Outcome (1 ∷ 0 ∷ 48 ∷ [])
