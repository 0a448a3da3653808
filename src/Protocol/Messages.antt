-- ===== src/Protocol/Messages.antt =====
-- protocol/message_types.hpp: the four messages of the feed.
use low_latency_market_data.Common.{
  ℕ, ◌+◌, ◌*◌, ◌%◌, ◌^◌, ◌≡◌, List, [], ◌∷◌, length, All, ℤ, zero, suc,
}
use low_latency_market_data.Common.Words.{IsByte, IsU32, IsU64}
use low_latency_market_data.Protocol.ByteOrder.{IsI64}
use Prim.Native.Nat.{bit_xor}

-- `MessageType`, by its byte.
abbrev pub type_add : ℕ
type_add = 1

abbrev pub type_cancel : ℕ
type_cancel = 2

abbrev pub type_execute : ℕ
type_execute = 3

abbrev pub type_replace : ℕ
type_replace = 4

-- `enum class Side : uint8_t`. A cast from a byte gives any value of the byte, named or not, so a
-- side is its byte.
abbrev pub Side : Type 0
Side = ℕ

abbrev pub buy : Side
buy = 0

abbrev pub sell : Side
sell = 1

abbrev pub symbol_len : ℕ
symbol_len = 8

-- `std::array<char, 8>`, each char by its byte.
abbrev pub Symbol : Type 0
Symbol = List ℕ

abbrev pub IsSymbol : Symbol → Type 0
IsSymbol s = (length s ≡ symbol_len) × All IsByte s

-- `make_symbol`: at most eight characters, padded with zeros. The loop runs over the array.
make_symbol_loop : ℕ → List ℕ → Symbol
make_symbol_loop zero s = []
make_symbol_loop (suc n) [] = 0 ∷ make_symbol_loop n []
make_symbol_loop (suc n) (c ∷ s) = c ∷ make_symbol_loop n s

pub make_symbol : List ℕ → Symbol
unfolding make_symbol_loop
make_symbol s = make_symbol_loop symbol_len s

-- The loop of `hash_symbol` (FNV-1a).
hash_loop : ℕ → Symbol → ℕ
hash_loop hash [] = hash
hash_loop hash (c ∷ s) = hash_loop (bit_xor hash c * 1099511628211 % 2 ^ 64) s

pub hash_symbol : Symbol → ℕ
unfolding hash_loop
hash_symbol s = hash_loop 1469598103934665603 s

abbrev pub header_size : ℕ
header_size = 3

pub record AddOrder : Type 0 where
  pub seq_num : ℕ
  pub order_id : ℕ
  pub symbol : Symbol
  pub side : Side
  pub price : ℤ
  pub quantity : ℕ
  pub timestamp : ℕ

pub record CancelOrder : Type 0 where
  pub seq_num : ℕ
  pub order_id : ℕ
  pub timestamp : ℕ

pub record ExecuteOrder : Type 0 where
  pub seq_num : ℕ
  pub order_id : ℕ
  pub executed_quantity : ℕ
  pub timestamp : ℕ

pub record ReplaceOrder : Type 0 where
  pub seq_num : ℕ
  pub old_order_id : ℕ
  pub new_order_id : ℕ
  pub price : ℤ
  pub quantity : ℕ
  pub timestamp : ℕ

abbrev pub add_wire_size : ℕ
add_wire_size = header_size + (8 + 8 + symbol_len + 1 + 8 + 4 + 8)

abbrev pub cancel_wire_size : ℕ
cancel_wire_size = header_size + (8 + 8 + 8)

abbrev pub execute_wire_size : ℕ
execute_wire_size = header_size + (8 + 8 + 4 + 8)

abbrev pub replace_wire_size : ℕ
replace_wire_size = header_size + (8 + 8 + 8 + 8 + 4 + 8)

-- `DecodedMessage` of protocol/decoder.hpp.
pub data DecodedMessage : Type 0 where
  add : AddOrder → DecodedMessage
  cancel : CancelOrder → DecodedMessage
  execute : ExecuteOrder → DecodedMessage
  replace : ReplaceOrder → DecodedMessage

-- The ranges of the fields' C++ types.
pub record IsAdd (m : AddOrder) : Type 0 where
  pub seq_num : IsU64 m.seq_num
  pub order_id : IsU64 m.order_id
  pub symbol : IsSymbol m.symbol
  pub side : IsByte m.side
  pub price : IsI64 m.price
  pub quantity : IsU32 m.quantity
  pub timestamp : IsU64 m.timestamp

pub record IsCancel (m : CancelOrder) : Type 0 where
  pub seq_num : IsU64 m.seq_num
  pub order_id : IsU64 m.order_id
  pub timestamp : IsU64 m.timestamp

pub record IsExecute (m : ExecuteOrder) : Type 0 where
  pub seq_num : IsU64 m.seq_num
  pub order_id : IsU64 m.order_id
  pub executed_quantity : IsU32 m.executed_quantity
  pub timestamp : IsU64 m.timestamp

pub record IsReplace (m : ReplaceOrder) : Type 0 where
  pub seq_num : IsU64 m.seq_num
  pub old_order_id : IsU64 m.old_order_id
  pub new_order_id : IsU64 m.new_order_id
  pub price : IsI64 m.price
  pub quantity : IsU32 m.quantity
  pub timestamp : IsU64 m.timestamp

abbrev pub IsMessage : DecodedMessage → Type 0
IsMessage (add m) = IsAdd m
IsMessage (cancel m) = IsCancel m
IsMessage (execute m) = IsExecute m
IsMessage (replace m) = IsReplace m
