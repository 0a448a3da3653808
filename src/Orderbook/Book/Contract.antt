-- ===== src/Orderbook/Book/Contract.antt =====
-- The order book against the abstract book: one message, and a sequence of messages from an empty book.
use low_latency_market_data.Common.{◌≡◌, refl, List, [], ◌∷◌, Option, some, Expected, ◌>>=◌, All}
use low_latency_market_data.Common.Words.{IsU32}
use low_latency_market_data.Protocol.Messages.{DecodedMessage, add, cancel, execute, replace}
use low_latency_market_data.Orderbook.Types.{ApplyError, ApplyResult, Node}
use low_latency_market_data.Orderbook.Spec.{Orders, spec}
use low_latency_market_data.Orderbook.Book.{Book, empty_book, apply}
use low_latency_market_data.Orderbook.Book.Represents.{Represents, empty-Represents}
use low_latency_market_data.Orderbook.Book.Forget.{orders}
use low_latency_market_data.Orderbook.Book.Refine.{Simulates, add-Simulates, cancel-Simulates}
use low_latency_market_data.Orderbook.Book.Fills.{execute-Simulates}
use low_latency_market_data.Orderbook.Book.Replaces.{replace-Simulates}

-- The quantity that a message brings to a book fits its type.
abbrev pub HasQuantity : DecodedMessage → Type 0
HasQuantity (add m) = IsU32 m.quantity
HasQuantity (cancel m) = Unit {0}
HasQuantity (execute m) = Unit {0}
HasQuantity (replace m) = IsU32 m.quantity

-- On a book that represents a list of orders, a message whose quantity fits its type meets no
-- undefined behaviour, returns what the abstract book returns on that list, and leaves a book that
-- represents the abstract book's list after it.
pub apply_refines :
    (b : Book) (flat : List Node) (m : DecodedMessage)
    → Represents b flat
    → HasQuantity m
    → Simulates (apply b m) (spec (orders flat) m)
unfolding apply spec
apply_refines b flat (add m) r small = add-Simulates r m small
apply_refines b flat (cancel m) r small = cancel-Simulates r m
apply_refines b flat (execute m) r small = execute-Simulates r m
apply_refines b flat (replace m) r small = replace-Simulates r m small

abbrev pub Results : Type 0
Results = List (Expected ApplyError ApplyResult)

-- One message after the other.
unfoldable pub apply_all : Book → List DecodedMessage → Option (Results × Book)
apply_all b [] = some ([], b)
apply_all b (m ∷ ms) = do
  (result, b') ← apply b m
  (results, b'') ← apply_all b' ms
  some (result ∷ results, b'')

unfoldable pub spec_all : Orders → List DecodedMessage → Results × Orders
spec_all os [] = ([], os)
spec_all os (m ∷ ms) =
    let (result, os') = spec os m in
    let (results, os'') = spec_all os' ms in (result ∷ results, os'')

pub run_from :
    (b : Book) (flat : List Node) (ms : List DecodedMessage)
    → Represents b flat
    → All HasQuantity ms
    → (b' : Book) × (apply_all b ms ≡ some ((spec_all (orders flat) ms).0, b'))
      × (flat' : List Node) × Represents b' flat'
      × (orders flat' ≡ (spec_all (orders flat) ms).1)
unfolding apply_all spec_all
run_from b flat [] r small = (b, refl, flat, r, refl)
run_from b flat (m ∷ ms) r small =
    let (b', one, flat', r', os') = apply_refines b flat m r small.0 in
    let (b'', rest, flat'', r'', os'') = run_from b' flat' ms r' small.1 in
    rw (one, rest, ← os') (b'', refl, flat'', r'', os'')

-- From an empty book, any sequence of messages whose quantities fit meets no undefined behaviour,
-- and returns what the abstract book returns.
pub apply_all_refines :
    (ms : List DecodedMessage)
    → All HasQuantity ms
    → (b' : Book) × (apply_all empty_book ms ≡ some ((spec_all [] ms).0, b'))
      × (flat' : List Node) × Represents b' flat'
      × (orders flat' ≡ (spec_all [] ms).1)
apply_all_refines ms small = run_from empty_book [] ms empty-Represents small
