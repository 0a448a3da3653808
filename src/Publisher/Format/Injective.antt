-- ===== src/Publisher/Format/Injective.antt =====
-- A line of the file tells what its delta says.
use low_latency_market_data.Common.{
  ℕ, zero, suc, ◌≡◌, ◌≢◌, refl, sym, ap, ◌∙◌, [], ◌∷◌, ◌++◌, ◌==◌, if◌then◌else◌, Bool-cases, inl,
  inr, All, drop, get_or, arith, ℤ, ◌≤◌,
}
use low_latency_market_data.Common.Text.{Text, codes, decimal, signed_decimal}
use low_latency_market_data.Common.Text.Decimal.{
  IsDigit, decimal-IsDigit, decimal_injective, signed_decimal_injective, signed_decimal-AfterMinus,
}
use low_latency_market_data.Protocol.Messages.{Symbol, Side, buy}
use low_latency_market_data.Publisher.BookDelta.{BookDelta}
use low_latency_market_data.Publisher.Format.{
  symbol_view, side_text, quantity_text, format_delta_line,
}

abbrev pub HasNo : ℕ → Text → Type 0
HasNo c s = All (λ d. d ≢ c) s

-- A text is cut in one way at the first place of a character.
cut :
    (c : ℕ) (s t s' t' : Text)
    → HasNo c s
    → HasNo c s'
    → s ++ c ∷ t ≡ s' ++ c ∷ t'
    → (s ≡ s') × (t ≡ t')
cut c [] t [] t' h h' e = (refl, ap (drop 1) e)
cut c [] t (d ∷ s') t' h (ne, h') e = absurd (ne (sym (ap (λ l. get_or l 0 c) e)))
cut c (d ∷ s) t [] t' (ne, h) h' e = absurd (ne (ap (λ l. get_or l 0 c) e))
cut c (d ∷ s) t (d' ∷ s') t' (ne, h) (ne', h') e =
    let (same, rest) = cut c s t s' t' h h' (ap (drop 1) e) in
    (cc (ap (λ l. get_or l 0 d) e, same), rest)

number-HasNo : (s : Text) → All (λ c. b'-' ≤ c) s → HasNo b' ' s
number-HasNo [] all = tt
number-HasNo (c ∷ s) (le, all) = ((λ e. omega arith), number-HasNo s all)

signed_decimal-HasNo : (z : ℤ) → HasNo b' ' (signed_decimal z)
signed_decimal-HasNo z = number-HasNo (signed_decimal z) (signed_decimal-AfterMinus z)

digits-HasNo : (s : Text) → All IsDigit s → HasNo b' ' s
digits-HasNo [] all = tt
digits-HasNo (c ∷ s) (digit, all) = ((λ e. omega arith), digits-HasNo s all)

decimal-HasNo : (n : ℕ) → HasNo b' ' (decimal n)
decimal-HasNo n = digits-HasNo (decimal n) (decimal-IsDigit n)

symbol_view-HasNo : (s : Symbol) → HasNo b' ' s → HasNo b' ' (symbol_view s)
unfolding symbol_view
symbol_view-HasNo [] h = tt
symbol_view-HasNo (c ∷ s) (ne, h) = elim (Bool-cases (c == 0)) [
  | inl stop ↦ rw stop tt
  | inr more ↦ rw more (ne, symbol_view-HasNo s h)
]

side_text-HasNo : (side : Side) → HasNo b' ' (side_text side)
unfolding side_text
side_text-HasNo side = elim (Bool-cases (side == buy)) [
  | inl b ↦ rw b (number-HasNo (codes "BUY") (omega arith, (omega arith, (omega arith, tt))))
  | inr s ↦
      rw s
        (number-HasNo (codes "SELL") (omega arith, (omega arith, (omega arith, (omega arith, tt)))))
]

first : Text → ℕ
first s = get_or s 0 0

side_first : (side : Side) → first (side_text side) ≡ (if side == buy then b'B' else b'S')
unfolding side_text first
side_first side = elim (Bool-cases (side == buy)) [ inl b ↦ rw b refl | inr s ↦ rw s refl ]

side_text_injective : (a b : Side) → side_text a ≡ side_text b → (a == buy) ≡ (b == buy)
side_text_injective a b e = ground (arith, side_first a, side_first b, ap first e)

-- No number is printed as a word.
first_digit : (s : Text) → All IsDigit s → first s ≢ b'R'
unfolding first
first_digit [] all e = omega arith
first_digit (c ∷ s) (digit, all) e = omega arith

quantity_zero : first (quantity_text 0) ≡ b'R'
unfolding quantity_text first
quantity_zero = refl

quantity_some : (n : ℕ) → n ≢ 0 → quantity_text n ≡ decimal n
unfolding quantity_text
quantity_some n ne = ground arith

quantity_text_injective : (m n : ℕ) → quantity_text m ≡ quantity_text n → m ≡ n
quantity_text_injective zero zero e = refl
quantity_text_injective zero (suc n) e =
    let word = ap first (sym (quantity_some (suc n) (omega arith)) ∙ sym e) ∙ quantity_zero in
    absurd (first_digit (decimal (suc n)) (decimal-IsDigit (suc n)) word)
quantity_text_injective (suc m) zero e =
    let word = ap first (sym (quantity_some (suc m) (omega arith)) ∙ e) ∙ quantity_zero in
    absurd (first_digit (decimal (suc m)) (decimal-IsDigit (suc m)) word)
quantity_text_injective (suc m) (suc n) e =
    let m_shown = quantity_some (suc m) (omega arith) in
    decimal_injective (suc m) (suc n) (sym m_shown ∙ e ∙ quantity_some (suc n) (omega arith))

-- What a reader of the line learns.
pub record SameLine (d e : BookDelta) : Type 0 where
  pub seq_num : d.seq_num ≡ e.seq_num
  pub timestamp : d.timestamp ≡ e.timestamp
  pub symbol : symbol_view d.symbol ≡ symbol_view e.symbol
  pub side : (d.side == buy) ≡ (e.side == buy)
  pub price : d.price ≡ e.price
  pub total_quantity : d.total_quantity ≡ e.total_quantity

-- What follows the space behind each field.
abbrev from_qty : BookDelta → Text
from_qty d = codes "qty=" ++ quantity_text d.total_quantity

abbrev from_price : BookDelta → Text
from_price d = codes "price=" ++ (signed_decimal d.price ++ (b' ' ∷ from_qty d))

abbrev from_side : BookDelta → Text
from_side d = codes "side=" ++ (side_text d.side ++ (b' ' ∷ from_price d))

abbrev from_symbol : BookDelta → Text
from_symbol d = codes "symbol=" ++ (symbol_view d.symbol ++ (b' ' ∷ from_side d))

abbrev from_ts : BookDelta → Text
from_ts d = codes "ts=" ++ (decimal d.timestamp ++ (b' ' ∷ from_symbol d))

-- Two deltas whose symbols hold no space have the same line only if they agree in the sequence
-- number, the timestamp, the symbol, the side, the price and the total, a removed level included.
pub format_delta_line_injective :
    (d e : BookDelta)
    → HasNo b' ' d.symbol
    → HasNo b' ' e.symbol
    → format_delta_line d ≡ format_delta_line e
    → SameLine d e
unfolding format_delta_line
format_delta_line_injective d e hd he line =
    let (seq, l₁) =
      cut b' ' (decimal d.seq_num) (from_ts d) (decimal e.seq_num) (from_ts e)
        (decimal-HasNo d.seq_num) (decimal-HasNo e.seq_num) (ap (drop 4) line) in
    let (ts, l₂) =
      cut b' ' (decimal d.timestamp) (from_symbol d) (decimal e.timestamp) (from_symbol e)
        (decimal-HasNo d.timestamp) (decimal-HasNo e.timestamp) (ap (drop 3) l₁) in
    let (symbol, l₃) =
      cut b' ' (symbol_view d.symbol) (from_side d) (symbol_view e.symbol) (from_side e)
        (symbol_view-HasNo d.symbol hd) (symbol_view-HasNo e.symbol he) (ap (drop 7) l₂) in
    let (side, l₄) =
      cut b' ' (side_text d.side) (from_price d) (side_text e.side) (from_price e)
        (side_text-HasNo d.side) (side_text-HasNo e.side) (ap (drop 5) l₃) in
    let (price, l₅) =
      cut b' ' (signed_decimal d.price) (from_qty d) (signed_decimal e.price) (from_qty e)
        (signed_decimal-HasNo d.price) (signed_decimal-HasNo e.price) (ap (drop 6) l₄) in
    record {
      seq_num = decimal_injective d.seq_num e.seq_num seq;
      timestamp = decimal_injective d.timestamp e.timestamp ts;
      symbol = symbol;
      side = side_text_injective d.side e.side side;
      price = signed_decimal_injective d.price e.price price;
      total_quantity = quantity_text_injective d.total_quantity e.total_quantity (ap (drop 4) l₅);
    }
