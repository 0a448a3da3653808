-- ===== src/Io/FeedGenerator/Chosen.antt =====
-- What each kind of message does to a well-formed feed.
use low_latency_market_data.Common.{
  ℕ, zero, suc, ◌+◌, ◌^◌, ◌≡◌, ◌≤◌, ◌<◌, refl, ap, ◌∙◌, List, [], ◌∷◌, ◌++◌, Bool, ◌==◌, inl, inr,
  Bool-cases, length, set, length-set, length-replicate, All, All-set, All-snoc, All-replicate,
  All-weaken, ==_iff, ◌⊎◌, if◌then◌else◌, arith,
}
use low_latency_market_data.Common.Words.{add64, IsU64}
use low_latency_market_data.Common.Maps
use low_latency_market_data.Common.Maps.{nat_eq, lookup-assign}
use low_latency_market_data.Protocol.Messages.{Symbol, IsSymbol, DecodedMessage, IsMessage}
use low_latency_market_data.Io.ProcessShard.{seq_num}
use low_latency_market_data.Io.FeedGenerator.{
  FeedGenerator, Draws, Config, new_feed, erase_at, last_seq, add_order, cancel_order,
  execute_order, replace_order, act_on,
}

-- The standard's promise on uniform_int_distribution: what is drawn is below the size.
pub record IsDraw {D : Type 0} (d : Draws D) : Type 0 where
  pub symbol : (n : ℕ) → 0 < n → d.symbol_pick n < n
  pub order : (n : ℕ) → 0 < n → d.order_pick n < n

-- A feed after `n` messages: one list of resting orders for each symbol, with ids that it has given out.
pub record IsFeed {D : Type 0} (n : ℕ) (f : FeedGenerator D) : Type 0 where
  pub symbols : All IsSymbol f.config.symbols
  pub some_symbol : 0 < length f.config.symbols
  pub some_shard : 0 < f.config.num_shards
  pub table : length f.resting_orders_per_symbol ≡ length f.config.symbols
  pub given_out : All (All (λ id. id < f.next_order_id)) f.resting_orders_per_symbol
  pub id_bound : f.next_order_id ≤ n + 1
  pub seq_bound : (k : ℕ) → last_seq k f ≤ n

abbrev pub Below : ℕ → List ℕ → Type 0
Below b ids = All (λ id. id < b) ids

erase_at-Below : (b : ℕ) (ids : List ℕ) (i : ℕ) → Below b ids → Below b (erase_at ids i)
erase_at-Below b [] i all = tt
erase_at-Below b (x ∷ xs) zero (p, all) = all
erase_at-Below b (x ∷ xs) (suc i) (p, all) = (p, erase_at-Below b xs i all)

Below-more : (b : ℕ) (ids : List ℕ) → Below b ids → Below (b + 1) ids
Below-more b ids all = All-weaken (λ id. id < b) (λ id. id < b + 1) ids (λ id lt. omega arith) all

module _ {D : Type 0} where
  -- A new feed has sent nothing.
  pub new_feed-IsFeed :
      (config : Config D)
      → All IsSymbol config.symbols
      → 0 < length config.symbols
      → 0 < config.num_shards
      → IsFeed 0 (new_feed config)
  unfolding Maps.lookup
  new_feed-IsFeed config valid some_symbol some_shard = record {
    symbols = valid;
    some_symbol = some_symbol;
    some_shard = some_shard;
    table = length-replicate (length config.symbols) [];
    given_out = All-replicate (Below 1) (length config.symbols) [] tt;
    id_bound = omega arith;
    seq_bound = λ k. omega arith;
  }

  -- What a message for a shard does to the feed.
  pub record Chosen (n shard : ℕ) (f : FeedGenerator D) (m : DecodedMessage) (f' : FeedGenerator D)
      : Type 0 where
    pub valid : IsMessage m
    pub well : IsFeed (n + 1) f'
    pub config : f'.config ≡ f.config
    pub emitted_count : f'.emitted_count ≡ f.emitted_count
    pub total_dropped : f'.total_dropped ≡ f.total_dropped
    pub seq : seq_num m ≡ last_seq shard f + 1
    pub seqs : (k : ℕ) → last_seq k f' ≡ (if shard == k then last_seq k f + 1 else last_seq k f)

  module _ (n shard : ℕ) (f : FeedGenerator D) (well : IsFeed n f) (fits : n + 2 < 2 ^ 64) where
    seq_next : add64 (last_seq shard f) 1 ≡ last_seq shard f + 1
    seq_next = let b = well.seq_bound shard in omega arith

    abbrev pub counted : FeedGenerator D
    counted = record f {
      next_seq_per_shard = Maps.assign shard (add64 (last_seq shard f) 1) f.next_seq_per_shard;
    }

    counted_seq :
        (k : ℕ) → last_seq k counted ≡ (if shard == k then last_seq k f + 1 else last_seq k f)
    counted_seq k =
        rw (lookup-assign k shard (add64 (last_seq shard f) 1) f.next_seq_per_shard)
          (elim (Bool-cases (shard == k)) [
            | inl hit ↦
                let same = (==_iff shard k).0 hit in
                rw hit (seq_next ∙ ap (λ j. last_seq j f + 1) same)
            | inr miss ↦ rw miss refl
          ])

    counted_bound : (k : ℕ) → last_seq k counted ≤ n + 1
    counted_bound k = let b = well.seq_bound k in ground (arith, counted_seq k)

    -- The feed with other resting orders of one symbol.
    outcome :
        (m : DecodedMessage) (next_id idx : ℕ) (resting : List ℕ)
        → IsMessage m
        → seq_num m ≡ add64 (last_seq shard f) 1
        → (next_id ≡ f.next_order_id) ⊎ (next_id ≡ f.next_order_id + 1)
        → Below next_id resting
        → Chosen n shard f m (record counted {
          next_order_id = next_id;
          resting_orders_per_symbol = set f.resting_orders_per_symbol idx resting;
        })
    outcome m next_id idx resting valid seq id_step below = record {
      valid = valid;
      well = record {
        symbols = well.symbols;
        some_symbol = well.some_symbol;
        some_shard = well.some_shard;
        table = length-set f.resting_orders_per_symbol idx resting ∙ well.table;
        given_out =
            All-set (Below next_id) f.resting_orders_per_symbol idx resting
              (All-weaken (Below f.next_order_id) (Below next_id) f.resting_orders_per_symbol
                (λ ids all.
                  All-weaken (λ id. id < f.next_order_id) (λ id. id < next_id) ids
                    (λ id lt. omega arith) all)
                well.given_out)
              below;
        id_bound = let b = well.id_bound in omega arith;
        seq_bound = counted_bound;
      };
      config = refl;
      emitted_count = refl;
      total_dropped = refl;
      seq = seq ∙ seq_next;
      seqs = counted_seq;
    }

    seq_fits : IsU64 (add64 (last_seq shard f) 1)
    seq_fits = omega arith

    id_fits : IsU64 f.next_order_id
    id_fits = let b = well.id_bound in omega arith

    id_next : add64 f.next_order_id 1 ≡ f.next_order_id + 1
    id_next = let b = well.id_bound in omega arith

    still-Below : (ids : List ℕ) → Below f.next_order_id ids → Below (add64 f.next_order_id 1) ids
    still-Below ids all =
        All-weaken (λ id. id < f.next_order_id) (λ id. id < add64 f.next_order_id 1) ids
          (λ id lt. omega (arith, id_next)) all

    pub add_order-Chosen :
        (symbol : Symbol) (idx : ℕ) (resting : List ℕ)
        → IsSymbol symbol
        → Below f.next_order_id resting
        → let (m, f') = add_order symbol (add64 (last_seq shard f) 1) idx resting counted in
          Chosen n shard f m f'
    add_order-Chosen symbol idx resting valid below =
        outcome _ (add64 f.next_order_id 1) idx (resting ++ f.next_order_id ∷ [])
          (record {
            seq_num = seq_fits;
            order_id = id_fits;
            symbol = valid;
            side = ground arith;
            price = omega arith;
            quantity = omega arith;
            timestamp = seq_fits;
          })
          refl (inr id_next)
          (All-snoc (λ id. id < add64 f.next_order_id 1) resting f.next_order_id
            (still-Below resting below) (omega (arith, id_next)))

    cancel_order-Chosen :
        (id at idx : ℕ) (resting : List ℕ)
        → id < f.next_order_id
        → Below f.next_order_id resting
        → let (m, f') = cancel_order (add64 (last_seq shard f) 1) id at idx resting counted in
          Chosen n shard f m f'
    cancel_order-Chosen id at idx resting known below =
        outcome _ f.next_order_id idx (erase_at resting at)
          (record { seq_num = seq_fits; order_id = omega (arith, id_fits); timestamp = seq_fits })
          refl (inl refl) (erase_at-Below f.next_order_id resting at below)

    execute_order-Chosen :
        (id : ℕ)
        → id < f.next_order_id
        → let (m, f') = execute_order (add64 (last_seq shard f) 1) id counted in
          Chosen n shard f m f'
    execute_order-Chosen id known = record {
      valid = record {
        seq_num = seq_fits;
        order_id = omega (arith, id_fits);
        executed_quantity = omega arith;
        timestamp = seq_fits;
      };
      well = record {
        symbols = well.symbols;
        some_symbol = well.some_symbol;
        some_shard = well.some_shard;
        table = well.table;
        given_out = well.given_out;
        id_bound = let b = well.id_bound in omega arith;
        seq_bound = counted_bound;
      };
      config = refl;
      emitted_count = refl;
      total_dropped = refl;
      seq = seq_next;
      seqs = counted_seq;
    }

    replace_order-Chosen :
        (id at idx : ℕ) (resting : List ℕ)
        → id < f.next_order_id
        → Below f.next_order_id resting
        → let (m, f') = replace_order (add64 (last_seq shard f) 1) id at idx resting counted in
          Chosen n shard f m f'
    replace_order-Chosen id at idx resting known below =
        outcome _ (add64 f.next_order_id 1) idx (set resting at f.next_order_id)
          (record {
            seq_num = seq_fits;
            old_order_id = omega (arith, id_fits);
            new_order_id = id_fits;
            price = omega arith;
            quantity = omega arith;
            timestamp = seq_fits;
          })
          refl (inr id_next)
          (All-set (λ id. id < add64 f.next_order_id 1) resting at f.next_order_id
            (still-Below resting below) (omega (arith, id_next)))

    pub act_on-Chosen :
        (ltd : D → D → Bool) (percent : ℕ → D) (roll : D) (id at idx : ℕ) (resting : List ℕ)
        → id < f.next_order_id
        → Below f.next_order_id resting
        → let (m, f') =
            act_on ltd percent roll (add64 (last_seq shard f) 1) id at idx resting counted in
          Chosen n shard f m f'
    act_on-Chosen ltd percent roll id at idx resting known below =
        elim (Bool-cases (ltd roll (percent 65))) [
          | inl c ↦ rw c (cancel_order-Chosen id at idx resting known below)
          | inr on ↦ elim (Bool-cases (ltd roll (percent 85))) [
            | inl x ↦ rw (on, x) (execute_order-Chosen id known)
            | inr r ↦ rw (on, r) (replace_order-Chosen id at idx resting known below)
          ]
        ]
