-- ===== src/Io/FeedGenerator.antt =====
-- io/feed_generator.cpp: the simulated feed. The random engine is a parameter: each message comes with
-- the values drawn for it. `D` is double, `ltd` its comparison, and `percent n` the constant n/100.
-- `none` is undefined behaviour: an index out of range, or a shard of none.
pub mod Chosen
pub mod NextMessage
pub mod Sequence
pub mod Accounts
use low_latency_market_data.Common.{
  ℕ, zero, suc, ◌+◌, ◌%◌, List, [], ◌∷◌, ◌++◌, Option, none, some, Bool, true, false, ◌||◌, ◌==◌,
  leb, length, get_elem?, set, replicate, if◌then◌else◌, ◌>>=◌, ℤ,
}
use low_latency_market_data.Common.Words.{add64}
use low_latency_market_data.Common.Maps
use low_latency_market_data.Common.Maps.{nat_eq}
use low_latency_market_data.Protocol.Messages.{
  Symbol, buy, sell, AddOrder, CancelOrder, ExecuteOrder, ReplaceOrder, DecodedMessage, add, cancel,
  execute, replace, add_wire_size, cancel_wire_size, execute_wire_size, replace_wire_size,
}
use low_latency_market_data.Protocol.Encoder.{encode}
use low_latency_market_data.Io.ShardDemux.{checked_shard}

pub record Config (D : Type 0) : Type 0 where
  pub symbols : List Symbol
  pub num_shards : ℕ
  pub message_count : ℕ
  pub packet_loss_rate : D

pub record FeedGenerator (D : Type 0) : Type 0 where
  pub config : Config D
  pub emitted_count : ℕ
  pub total_dropped : ℕ
  pub next_order_id : ℕ
  pub next_seq_per_shard : List (ℕ × ℕ)
  pub resting_orders_per_symbol : List (List ℕ)

-- What is drawn for one message: an index below a size, for the symbol and for the order, and the two
-- numbers in [0, 1).
pub record Draws (D : Type 0) : Type 0 where
  pub symbol_pick : ℕ → ℕ
  pub action_pick : D
  pub order_pick : ℕ → ℕ
  pub loss_pick : D

-- A packet without bytes was lost in transit.
pub record Packet : Type 0 where
  pub exhausted : Bool
  pub bytes : Option (List ℕ)

-- `resting.erase(resting.begin() + idx)`
abbrev pub erase_at : List ℕ → ℕ → List ℕ
erase_at [] i = []
erase_at (x ∷ xs) zero = xs
erase_at (x ∷ xs) (suc i) = x ∷ erase_at xs i

abbrev pub value_or_zero : Option ℕ → ℕ
value_or_zero none = 0
value_or_zero (some n) = n

abbrev pub is_empty : List ℕ → Bool
is_empty [] = true
is_empty (x ∷ xs) = false

-- `std::vector<std::byte> buf(kWireSize)` and `encode`.
abbrev pub buffer_size : DecodedMessage → ℕ
buffer_size (add m) = add_wire_size
buffer_size (cancel m) = cancel_wire_size
buffer_size (execute m) = execute_wire_size
buffer_size (replace m) = replace_wire_size

pub encoded : DecodedMessage → Option (List ℕ)
encoded m = do (size, buf) ← encode m (replicate (buffer_size m) 0); some buf

module _ {D : Type 0} where
  abbrev pub new_feed : Config D → FeedGenerator D
  new_feed config = record {
    config = config;
    emitted_count = 0;
    total_dropped = 0;
    next_order_id = 1;
    next_seq_per_shard = [];
    resting_orders_per_symbol = replicate (length config.symbols) [];
  }

  -- `next_seq_per_shard_[shard]`
  abbrev pub last_seq : ℕ → FeedGenerator D → ℕ
  last_seq shard f = value_or_zero (Maps.lookup shard f.next_seq_per_shard)

  -- The index of the symbol, and the shard it is on.
  abbrev pub symbol_idx : Draws D → FeedGenerator D → ℕ
  symbol_idx d f = d.symbol_pick (length f.config.symbols)

  -- `resting_orders_per_symbol_[symbol_idx] = resting`
  abbrev pub with_resting : ℕ → List ℕ → FeedGenerator D → FeedGenerator D
  with_resting idx resting f = record f {
    resting_orders_per_symbol = set f.resting_orders_per_symbol idx resting;
  }

  abbrev pub add_order :
      Symbol → ℕ → ℕ → List ℕ → FeedGenerator D → DecodedMessage × FeedGenerator D
  add_order symbol seq idx resting f =
      let id = f.next_order_id in
      (
        add (record {
          seq_num = seq;
          order_id = id;
          symbol = symbol;
          side = if (id % 2) == 0 then buy else sell;
          price = ℤ.pos (100 + id % 50);
          quantity = 10 + id % 20;
          timestamp = seq;
        }),
        with_resting idx (resting ++ id ∷ []) (record f { next_order_id = add64 id 1 }),
      )

  abbrev pub cancel_order :
      ℕ → ℕ → ℕ → ℕ → List ℕ → FeedGenerator D → DecodedMessage × FeedGenerator D
  cancel_order seq id at idx resting f = (
    cancel (record { seq_num = seq; order_id = id; timestamp = seq }),
    with_resting idx (erase_at resting at) f,
  )

  abbrev pub execute_order : ℕ → ℕ → FeedGenerator D → DecodedMessage × FeedGenerator D
  execute_order seq id f = (
    execute
        (record { seq_num = seq; order_id = id; executed_quantity = 1 + id % 5; timestamp = seq }),
    f,
  )

  abbrev pub replace_order :
      ℕ → ℕ → ℕ → ℕ → List ℕ → FeedGenerator D → DecodedMessage × FeedGenerator D
  replace_order seq id at idx resting f =
      let new_id = f.next_order_id in
      (
        replace (record {
          seq_num = seq;
          old_order_id = id;
          new_order_id = new_id;
          price = ℤ.pos (100 + new_id % 50);
          quantity = 10 + new_id % 20;
          timestamp = seq;
        }),
        with_resting idx (set resting at new_id) (record f { next_order_id = add64 new_id 1 }),
      )

  module _ (ltd : D → D → Bool) (percent : ℕ → D) where
    -- The message on an order that rests, by the roll.
    abbrev pub act_on :
        D → ℕ → ℕ → ℕ → ℕ → List ℕ → FeedGenerator D → DecodedMessage × FeedGenerator D
    act_on roll seq id at idx resting f =
        if ltd roll (percent 65)
        then cancel_order seq id at idx resting f
        else if ltd roll (percent 85)
        then execute_order seq id f
        else replace_order seq id at idx resting f

    -- The order at number `at` of those that rest.
    abbrev pub act_at :
        D
        → ℕ
        → Option ℕ
        → ℕ
        → ℕ
        → List ℕ
        → FeedGenerator D
        → Option (DecodedMessage × FeedGenerator D)
    act_at roll seq none at idx resting f = none
    act_at roll seq (some id) at idx resting f = some (act_on roll seq id at idx resting f)

    -- The choice of the message, for the symbol at number `idx` and on the shard number `shard`, whose
    -- resting orders are `resting`.
    pub choose :
        Draws D
        → Symbol
        → ℕ
        → ℕ
        → List ℕ
        → FeedGenerator D
        → Option (DecodedMessage × FeedGenerator D)
    choose d symbol shard idx resting f =
        let seq = add64 (last_seq shard f) 1 in
        let f' : FeedGenerator D = record f {
          next_seq_per_shard = Maps.assign shard seq f.next_seq_per_shard;
        } in
        let at = d.order_pick (length resting) in
        if is_empty resting || ltd d.action_pick (percent 50)
        then some (add_order symbol seq idx resting f')
        else act_at d.action_pick seq (get_elem? resting at) at idx resting f'

    pub next_message : Draws D → FeedGenerator D → Option (DecodedMessage × FeedGenerator D)
    next_message d f = do
      symbol ← get_elem? f.config.symbols (symbol_idx d f)
      shard ← checked_shard symbol f.config.num_shards
      resting ← get_elem? f.resting_orders_per_symbol (symbol_idx d f)
      choose d symbol shard (symbol_idx d f) resting f

    pub generate_next_message : Draws D → FeedGenerator D → Option (List ℕ × FeedGenerator D)
    generate_next_message d f = do (m, f') ← next_message d f; bytes ← encoded m; some (bytes, f')

    -- The loss comes after the message.
    abbrev pub in_transit : Draws D → List ℕ → FeedGenerator D → Packet × FeedGenerator D
    in_transit d bytes f =
        if ltd d.loss_pick f.config.packet_loss_rate
        then (
          record { exhausted = false; bytes = none },
          record f { total_dropped = add64 f.total_dropped 1 },
        )
        else (record { exhausted = false; bytes = some bytes }, f)

    pub next : Draws D → FeedGenerator D → Option (Packet × FeedGenerator D)
    next d f =
        if leb f.config.message_count f.emitted_count
        then some (record { exhausted = true; bytes = none }, f)
        else do
          (bytes, f') ←
              generate_next_message d (record f { emitted_count = add64 f.emitted_count 1 })
          some (in_transit d bytes f')
