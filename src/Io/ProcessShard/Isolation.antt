-- ===== src/Io/ProcessShard/Isolation.antt =====
-- The loop of `process_shard`, and the books of the shard by their symbols.
use low_latency_market_data.Common.{
  ℕ, ◌+◌, ◌≡◌, refl, ap, ◌∙◌, List, [], ◌∷◌, some, Bool, if◌then◌else◌, All, map, Bool-cases, inl,
  inr,
}
use low_latency_market_data.Common.Maps
use low_latency_market_data.Common.Maps.{nat_eq, list_eq, Eq}
use low_latency_market_data.Protocol.Messages.{Symbol, DecodedMessage}
use low_latency_market_data.Orderbook.Types.{Node}
use low_latency_market_data.Orderbook.Spec.{Orders, spec}
use low_latency_market_data.Orderbook.Book.{Book, apply}
use low_latency_market_data.Orderbook.Book.Represents.{Represents, empty-Represents}
use low_latency_market_data.Orderbook.Book.Forget.{orders}
use low_latency_market_data.Orderbook.Book.Contract.{HasQuantity, apply_refines, spec_all}
use low_latency_market_data.Concurrency.GapDetector.{observe, observe_all}
use low_latency_market_data.Io.ShardDemux.{QueuedMessage, Shard, Routes}
use low_latency_market_data.Io.ProcessShard.{
  book_for, seq_num, process_message, process_messages, clean_route, publish_result,
}

abbrev pub is_symbol : Symbol → Symbol → Bool
is_symbol s t = list_eq.beq s t

-- The messages for one symbol.
abbrev pub messages_of : Symbol → List QueuedMessage → List DecodedMessage
messages_of s [] = []
messages_of s (qm ∷ qms) =
    if is_symbol qm.symbol s then qm.message ∷ messages_of s qms else messages_of s qms

-- Each symbol's book holds that symbol's orders; a book that is not there holds none.
abbrev pub Tracks : List (Symbol × Book) → (Symbol → Orders) → Type 0
Tracks books os =
    (s : Symbol) → (flat : List Node) × Represents (book_for s books) flat × (orders flat ≡ os s)

abbrev pub after : QueuedMessage → (Symbol → Orders) → Symbol → Orders
after qm os s = if is_symbol qm.symbol s then (spec (os s) qm.message).1 else os s

book_for-assign :
    (s t : Symbol) (b : Book) (books : List (Symbol × Book))
    → book_for s (Maps.assign t b books) ≡ (if is_symbol t s then b else book_for s books)
unfolding book_for
book_for-assign s t b books = elim (Bool-cases (is_symbol t s)) [
  | inl hit ↦ rw (Maps.lookup-assign s t b books, hit)
  | inr miss ↦ rw (Maps.lookup-assign s t b books, miss)
]

Tracks-step :
    (books : List (Symbol × Book)) (os : Symbol → Orders) (qm : QueuedMessage)
    → Tracks books os
    → HasQuantity qm.message
    → (b : Book) × (apply (book_for qm.symbol books) qm.message
        ≡ some ((spec (os qm.symbol) qm.message).0, b))
      × Tracks (Maps.assign qm.symbol b books) (after qm os)
Tracks-step books os qm tracks small =
    let (flat, r, same) = tracks qm.symbol in
    let (b, run, flat', r', same') =
      apply_refines (book_for qm.symbol books) flat qm.message r small in
    (
      b,
      run ∙ ap (λ o. some ((spec o qm.message).0, b)) same,
      λ s. elim (Bool-cases (is_symbol qm.symbol s)) [
        | inl hit ↦
            let here : qm.symbol ≡ s = (list_eq.beq_iff qm.symbol s).0 hit in
            rw (book_for-assign s qm.symbol b books, hit)
              (flat', r', same' ∙ ap (λ o. (spec o qm.message).1) (same ∙ ap os here))
        | inr miss ↦ rw (book_for-assign s qm.symbol b books, miss) (tracks s)
      ],
    )

-- A shard without books.
pub empty-Tracks : Tracks [] (λ s. [])
unfolding book_for Maps.lookup
empty-Tracks s = ([], empty-Represents, refl)

-- What the loop leaves: the detector has seen the numbers, and the books the messages.
pub record Drained (s : Shard) (os : Symbol → Orders) (qms : List QueuedMessage) (s' : Shard)
    : Type 0 where
  pub detector : s'.gap_detector ≡ observe_all s.gap_detector (map (λ qm. seq_num qm.message) qms)
  pub queue : s'.queue ≡ s.queue
  pub books : Tracks s'.books (λ t. (spec_all (os t) (messages_of t qms)).1)

Tracks-next :
    (books : List (Symbol × Book)) (os : Symbol → Orders) (qm : QueuedMessage)
    (qms : List QueuedMessage)
    → Tracks books (λ t. (spec_all (after qm os t) (messages_of t qms)).1)
    → Tracks books (λ t. (spec_all (os t) (messages_of t (qm ∷ qms))).1)
unfolding spec_all
Tracks-next books os qm qms tracks t =
    let (flat, r, e) = tracks t in
    elim (Bool-cases (is_symbol qm.symbol t)) [
      | inl hit ↦
          let now : after qm os t ≡ (spec (os t) qm.message).1 = rw hit in
          rw hit (flat, r, e ∙ ap (λ o. (spec_all o (messages_of t qms)).1) now)
      | inr miss ↦
          let now : after qm os t ≡ os t = rw miss in
          rw miss (flat, r, e ∙ ap (λ o. (spec_all o (messages_of t qms)).1) now)
    ]

-- Where each symbol's book holds that symbol's orders, the loop over a shard's messages meets no
-- undefined behaviour. After it, each book holds the orders that the messages of its symbol alone
-- leave, and the gap detector has observed all the sequence numbers.
pub process_messages_lem :
    (clock : ℕ → ℕ) (i : ℕ) (qms : List QueuedMessage) (s : Shard) (routes : Routes)
    (os : Symbol → Orders)
    → Tracks s.books os
    → All (λ qm. HasQuantity qm.message) qms
    → (s' : Shard) × (routes' : Routes) × (process_messages clock i qms s routes
        ≡ some (s', routes'))
      × Drained s os qms s'
unfolding process_messages process_message observe_all spec_all
process_messages_lem clock i [] s routes os tracks small =
    (s, routes, refl, record { detector = refl; queue = refl; books = tracks })
process_messages_lem clock i (qm ∷ qms) s routes os tracks small =
    let (b, run, next) = Tracks-step s.books os qm tracks small.0 in
    let qm' : QueuedMessage = record qm {
      trace = record (qm.trace) { t_dequeued = clock i; t_book_updated = clock (i + 1) };
    } in
    let s1 : Shard = record s {
      gap_detector = (observe s.gap_detector (seq_num qm.message)).1;
      books = Maps.assign qm.symbol b s.books;
      output_queue = publish_result qm' (spec (os qm.symbol) qm.message).0 s.output_queue;
    } in
    let (s', routes', rest, d) =
      process_messages_lem clock (i + 2) qms s1 (clean_route qm.message b routes) (after qm os) next
        small.1 in
    rw run (
      s',
      routes',
      rest,
      record {
        detector = d.detector;
        queue = d.queue;
        books = Tracks-next s'.books os qm qms d.books;
      },
    )
