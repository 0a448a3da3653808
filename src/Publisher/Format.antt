-- ===== src/Publisher/Format.antt =====
-- publisher/publisher.cpp: the line of text for a delta.
pub mod Injective
use low_latency_market_data.Common.{ℕ, List, [], ◌∷◌, ◌++◌, ◌==◌, if◌then◌else◌}
use low_latency_market_data.Common.Text.{Text, codes, decimal, signed_decimal}
use low_latency_market_data.Protocol.Messages.{Symbol, Side, buy}
use low_latency_market_data.Publisher.BookDelta.{BookDelta}

-- The characters of a symbol before the first '\0'.
unfoldable pub symbol_view : Symbol → Text
symbol_view [] = []
symbol_view (c ∷ s) = let rest = symbol_view s in if c == 0 then [] else c ∷ rest

unfoldable pub side_text : Side → Text
side_text side = if side == buy then codes "BUY" else codes "SELL"

unfoldable pub quantity_text : ℕ → Text
quantity_text total_quantity =
    if total_quantity == 0 then codes "REMOVED" else decimal total_quantity

unfoldable pub format_delta_line : BookDelta → Text
format_delta_line delta =
    codes "seq="
    ++ (decimal delta.seq_num
        ++ (codes " ts="
            ++ (decimal delta.timestamp
                ++ (codes " symbol="
                    ++ (symbol_view delta.symbol
                        ++ (codes " side="
                            ++ (side_text delta.side
                                ++ (codes " price="
                                    ++ (signed_decimal delta.price
                                        ++ (codes " qty="
                                            ++ quantity_text delta.total_quantity))))))))))
