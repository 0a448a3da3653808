-- ===== src/Protocol/ByteOrder/Writes.antt =====
-- The `put_*` functions as writes of a list of bytes.
use low_latency_market_data.Common.{
  ℕ, zero, suc, ◌+◌, ◌*◌, ◌/◌, ◌%◌, ◌^◌, ◌≤◌, ◌≡◌, refl, ap, ◌∙◌, List, [], ◌∷◌, ◌++◌, length, drop,
  set, arith, length-set, ◌<◌, some, ℤ,
}
use low_latency_market_data.Protocol.ByteOrder.{
  store, put_loop, put_u8, put_u16, put_u32, put_u64, put_i64, to_u64,
}

-- Bytes written one after the other from offset `p` on.
unfoldable pub write_list : List ℕ → ℕ → List ℕ → List ℕ
write_list buf p [] = buf
write_list buf p (b ∷ bs) = write_list (set buf p b) (p + 1) bs

-- Bytes `i` to `i + n - 1` of `v`.
abbrev pub le_bytes : ℕ → ℕ → ℕ → List ℕ
le_bytes zero i v = []
le_bytes (suc n) i v = (v / 2 ^ (8 * i) % 256) ∷ le_bytes n (i + 1) v

write_list-suc :
    (bs : List ℕ) (x : ℕ) (buf : List ℕ) (p : ℕ)
    → write_list (x ∷ buf) (suc p) bs ≡ x ∷ write_list buf p bs
unfolding write_list
write_list-suc [] x buf p = refl
write_list-suc (b ∷ bs) x buf p =
    ap (λ k. write_list (x ∷ set buf p b) k bs) (shift p)
    ∙ write_list-suc bs x (set buf p b) (p + 1)
  where
    shift : (p : ℕ) → suc p + 1 ≡ suc (p + 1)
    shift p = omega arith

-- A write at the front of a span that is long enough.
pub write_list_front :
    (bs buf : List ℕ) → length bs ≤ length buf → write_list buf 0 bs ≡ bs ++ drop (length bs) buf
write_list_front [] buf h = unfold write_list in refl
write_list_front (b ∷ bs) [] h = absurd (omega arith)
write_list_front (b ∷ bs) (x ∷ buf) h =
    step ∙ write_list-suc bs b buf 0 ∙ ap (λ l. b ∷ l) (write_list_front bs buf (omega arith))
  where
    step : write_list (x ∷ buf) 0 (b ∷ bs) ≡ write_list (b ∷ buf) 1 bs
    step = unfold write_list in refl

pub length-write_list : (bs buf : List ℕ) (p : ℕ) → length (write_list buf p bs) ≡ length buf
unfolding write_list
length-write_list [] buf p = refl
length-write_list (b ∷ bs) buf p = length-write_list bs (set buf p b) (p + 1) ∙ length-set buf p b

-- What is written behind `cs`.
write_list-append :
    (cs bs buf : List ℕ) (p : ℕ)
    → write_list (write_list buf p cs) (p + length cs) bs ≡ write_list buf p (cs ++ bs)
unfolding write_list
write_list-append [] bs buf p = ap (λ k. write_list buf k bs) (omega arith)
write_list-append (c ∷ cs) bs buf p =
    ap (λ k. write_list (write_list (set buf p c) (p + 1) cs) k bs) (omega arith)
    ∙ write_list-append cs bs (set buf p c) (p + 1)

store_lem : (buf : List ℕ) (p b : ℕ) → p < length buf → store buf p b ≡ some (set buf p b)
unfolding store
store_lem buf p b h = ground arith

put_loop_lem :
    (n i : ℕ) (buf : List ℕ) (p v : ℕ)
    → p + (i + n) ≤ length buf
    → put_loop n i buf p v ≡ some (write_list buf (p + i) (le_bytes n i v))
unfolding put_loop write_list
put_loop_lem zero i buf p v h = refl
put_loop_lem (suc n) i buf p v h =
    let b = v / 2 ^ (8 * i) % 256 in
    rw (store_lem buf (p + i) b (omega arith)) (
      put_loop_lem n (i + 1) (set buf (p + i) b) p v (omega (arith, length-set buf (p + i) b))
      ∙ ap (λ k. some (write_list (set buf (p + i) b) k (le_bytes n (i + 1) v))) (omega arith))

-- The bytes `xs` stand at the front of `out`; what a `put_*` function adds to them.
module _ (out xs : List ℕ) where
  abbrev front : List ℕ
  front = write_list out 0 xs

  front_write : (bs : List ℕ) → write_list front (length xs) bs ≡ write_list out 0 (xs ++ bs)
  front_write bs = ap (λ k. write_list front k bs) (omega arith) ∙ write_list-append xs bs out 0

  next_loop :
      (n v : ℕ)
      → length xs + n ≤ length out
      → put_loop n 0 front (length xs) v ≡ some (write_list out 0 (xs ++ le_bytes n 0 v))
  next_loop n v h =
      put_loop_lem n 0 front (length xs) v (omega (arith, length-write_list xs out 0))
      ∙ ap (λ k. some (write_list front k (le_bytes n 0 v))) (omega arith)
      ∙ ap some (front_write (le_bytes n 0 v))

  pub next_u64 :
      (v : ℕ)
      → length xs + 8 ≤ length out
      → put_u64 front (length xs) v ≡ some (write_list out 0 (xs ++ le_bytes 8 0 v))
  unfolding put_u64
  next_u64 v h = next_loop 8 v h

  pub next_u32 :
      (v : ℕ)
      → length xs + 4 ≤ length out
      → put_u32 front (length xs) v ≡ some (write_list out 0 (xs ++ le_bytes 4 0 v))
  unfolding put_u32
  next_u32 v h = next_loop 4 v h

  pub next_i64 :
      (z : ℤ)
      → length xs + 8 ≤ length out
      → put_i64 front (length xs) z ≡ some (write_list out 0 (xs ++ le_bytes 8 0 (to_u64 z)))
  unfolding put_i64
  next_i64 z h = next_u64 (to_u64 z) h

  pub next_u8 :
      (v : ℕ)
      → length xs + 1 ≤ length out
      → put_u8 front (length xs) v ≡ some (write_list out 0 (xs ++ (v % 256) ∷ []))
  unfolding put_u8 write_list
  next_u8 v h =
      store_lem front (length xs) (v % 256) (omega (arith, length-write_list xs out 0))
      ∙ ap some (front_write ((v % 256) ∷ []))

  pub next_u16 :
      (v : ℕ)
      → length xs + 2 ≤ length out
      → put_u16 front (length xs) v
        ≡ some (write_list out 0 (xs ++ (v % 256) ∷ (v / 2 ^ 8 % 256) ∷ []))
  unfolding put_u16 write_list
  next_u16 v h =
      let len = length-write_list xs out 0 in
      rw (store_lem front (length xs) (v % 256) (omega arith)) (
        store_lem (set front (length xs) (v % 256)) (length xs + 1) (v / 2 ^ 8 % 256)
          (omega (arith, length-set front (length xs) (v % 256)))
        ∙ ap some (front_write ((v % 256) ∷ (v / 2 ^ 8 % 256) ∷ [])))
