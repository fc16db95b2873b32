-- ===== src/Sha256/Literal/Agreement.antt =====
-- That utils/hash/sha256/sha256_literal.hpp hashes as utils/hash/sha256/sha256.cpp does.
use module_oriented_software.Common.{
  ℕ, zero, suc, ◌≡◌, refl, sym, ap, ap₂, ◌∙◌, ◌<◌, ◌+◌, ◌-◌, ◌*◌, ◌/◌, ◌%◌, ◌^◌, List, [], ◌∷◌,
  ◌++◌, length, take, drop, arith, take_all, length-drop, ltb, if◌then◌else◌, bit_or, bit_and,
}
use module_oriented_software.Common.Bits.{bit_or-add, bit_and-byte}
use module_oriented_software.Sha256.Compute.{
  Bytes, HashState, sha256_k, initial_state, nth, zeros, store, be_bytes, loadu_be, load_words,
  extend_words, add_states, rounds, round, transform, run_blocks, last_block, finish, state_bytes,
  compute,
}
use module_oriented_software.Sha256.Compute.Hashes.{IsBytes, append-IsBytes, be_bytes-IsBytes}
use module_oriented_software.Sha256.Literal.{
  u8x4_to_be_u32, block_words, u8_to_blocks, literal_round, literal_rounds, transform_words,
  transform_all, length_bytes, word_bytes, state_to_hash, last_bytes, finish_literal, sha256,
}

nth-IsBytes : (n : ℕ) (xs : Bytes) → IsBytes xs → nth n xs < 256
unfolding nth
nth-IsBytes n [] h = omega arith
nth-IsBytes zero (x ∷ xs) h = h.0
nth-IsBytes (suc n) (x ∷ xs) h = nth-IsBytes n xs h.1

take-IsBytes : (n : ℕ) (xs : Bytes) → IsBytes xs → IsBytes (take n xs)
take-IsBytes zero xs h = tt
take-IsBytes (suc n) [] h = tt
take-IsBytes (suc n) (x ∷ xs) h = (h.0, take-IsBytes n xs h.1)

drop-IsBytes : (n : ℕ) (xs : Bytes) → IsBytes xs → IsBytes (drop n xs)
drop-IsBytes zero xs h = h
drop-IsBytes (suc n) [] h = tt
drop-IsBytes (suc n) (x ∷ xs) h = drop-IsBytes n xs h.1

pub zeros-IsBytes : (n : ℕ) → IsBytes (zeros n)
unfolding zeros
zeros-IsBytes zero = tt
zeros-IsBytes (suc n) = (omega arith, zeros-IsBytes n)

store-IsBytes : (n : ℕ) (xs ys : Bytes) → IsBytes xs → IsBytes ys → IsBytes (store n xs ys)
unfolding store
store-IsBytes n xs ys h k =
    append-IsBytes (take n ys) (xs ++ drop (n + length xs) ys) (take-IsBytes n ys k)
      (append-IsBytes xs (drop (n + length xs) ys) h (drop-IsBytes (n + length xs) ys k))

-- Four bytes, put together by `|`, are the number that they write.
u8x4_to_be_u32_lem :
    (a b c d : ℕ)
    → a < 256
    → b < 256
    → c < 256
    → d < 256
    → u8x4_to_be_u32 a b c d ≡ a * 2 ^ 24 + b * 2 ^ 16 + c * 2 ^ 8 + d
unfolding u8x4_to_be_u32
u8x4_to_be_u32_lem a b c d ha hb hc hd =
    let ec : c * 2 ^ 8 % 2 ^ 32 ≡ c * 2 ^ 8 = omega arith in
    let eb : b * 2 ^ 16 % 2 ^ 32 ≡ b * 2 ^ 16 = omega arith in
    let ea : a * 2 ^ 24 % 2 ^ 32 ≡ a * 2 ^ 24 = omega arith in
    ap (λ r. bit_or (bit_or (bit_or d r) (b * 2 ^ 16 % 2 ^ 32)) (a * 2 ^ 24 % 2 ^ 32)) ec
    ∙ ap (λ r. bit_or (bit_or r (b * 2 ^ 16 % 2 ^ 32)) (a * 2 ^ 24 % 2 ^ 32))
        (bit_or-add 8 d c (omega arith))
    ∙ ap (λ r. bit_or (bit_or (d + c * 2 ^ 8) r) (a * 2 ^ 24 % 2 ^ 32)) eb
    ∙ ap (λ r. bit_or r (a * 2 ^ 24 % 2 ^ 32)) (bit_or-add 16 (d + c * 2 ^ 8) b (omega arith))
    ∙ ap (bit_or (d + c * 2 ^ 8 + b * 2 ^ 16)) ea
    ∙ bit_or-add 24 (d + c * 2 ^ 8 + b * 2 ^ 16) a (omega arith)
    ∙ omega arith

block_words-load_words :
    (n i : ℕ) (xs : Bytes) → IsBytes xs → block_words n i xs ≡ load_words n i xs
unfolding block_words load_words loadu_be
block_words-load_words zero i xs h = refl
block_words-load_words (suc n) i xs h =
    ap₂ (◌∷◌)
      (u8x4_to_be_u32_lem (nth (i * 4) xs) (nth (i * 4 + 1) xs) (nth (i * 4 + 2) xs)
        (nth (i * 4 + 3) xs) (nth-IsBytes (i * 4) xs h) (nth-IsBytes (i * 4 + 1) xs h)
        (nth-IsBytes (i * 4 + 2) xs h) (nth-IsBytes (i * 4 + 3) xs h))
      (block_words-load_words n (i + 1) xs h)

literal_rounds-rounds : (ks ws : List ℕ) (s : HashState) → literal_rounds ks ws s ≡ rounds ks ws s
unfolding literal_rounds rounds literal_round round
literal_rounds-rounds [] ws s = refl
literal_rounds-rounds (k ∷ ks) [] s = refl
literal_rounds-rounds (k ∷ ks) (w ∷ ws) s = literal_rounds-rounds ks ws (round k w s)

transform_words-transform :
    (s : HashState) (xs : Bytes)
    → IsBytes xs
    → transform_words s (block_words 16 0 xs) ≡ transform s xs
unfolding transform_words transform
transform_words-transform s xs h = ap (add_states s) (
    ap (λ ws. literal_rounds sha256_k (extend_words 48 16 ws) s) (block_words-load_words 16 0 xs h)
    ∙ literal_rounds-rounds sha256_k (extend_words 48 16 (load_words 16 0 xs)) s)

transform_all-run_blocks :
    (n i : ℕ) (bytes : Bytes) (s : HashState)
    → IsBytes bytes
    → transform_all (u8_to_blocks n i bytes) s ≡ run_blocks n i bytes s
unfolding transform_all u8_to_blocks run_blocks
transform_all-run_blocks zero i bytes s h = refl
transform_all-run_blocks (suc n) i bytes s h =
    ap (transform_all (u8_to_blocks n (i + 1) bytes))
      (transform_words-transform s (drop (i * 64) bytes) (drop-IsBytes (i * 64) bytes h))
    ∙ transform_all-run_blocks n (i + 1) bytes (transform s (drop (i * 64) bytes)) h

length_bytes-be_bytes : (v : ℕ) → length_bytes 8 0 v ≡ be_bytes 8 v
unfolding length_bytes be_bytes
length_bytes-be_bytes v =
    let last : bit_and (v / 2 ^ 0) 255 ≡ v / 256 ^ 0 % 256 = bit_and-byte (v / 1) in
    ap₂ (◌∷◌) (bit_and-byte (v / 2 ^ 56)) (
      ap₂ (◌∷◌) (bit_and-byte (v / 2 ^ 48)) (
        ap₂ (◌∷◌) (bit_and-byte (v / 2 ^ 40)) (
          ap₂ (◌∷◌) (bit_and-byte (v / 2 ^ 32)) (
            ap₂ (◌∷◌) (bit_and-byte (v / 2 ^ 24)) (
              ap₂ (◌∷◌) (bit_and-byte (v / 2 ^ 16))
                (ap₂ (◌∷◌) (bit_and-byte (v / 2 ^ 8)) (ap (λ b. b ∷ []) last)))))))

word_bytes-be_bytes : (v : ℕ) → word_bytes v ≡ be_bytes 4 v
unfolding word_bytes be_bytes
word_bytes-be_bytes v =
    let last : bit_and v 255 ≡ v / 256 ^ 0 % 256 = bit_and-byte v ∙ omega arith in
    ap₂ (◌∷◌) (bit_and-byte (v / 2 ^ 24)) (
      ap₂ (◌∷◌) (bit_and-byte (v / 2 ^ 16))
        (ap₂ (◌∷◌) (bit_and-byte (v / 2 ^ 8)) (ap (λ b. b ∷ []) last)))

state_to_hash-state_bytes : (s : HashState) → state_to_hash s ≡ state_bytes s
unfolding state_to_hash state_bytes
state_to_hash-state_bytes s =
    ap₂ (◌++◌)
      (ap₂ (◌++◌)
        (ap₂ (◌++◌)
          (ap₂ (◌++◌)
            (ap₂ (◌++◌)
              (ap₂ (◌++◌) (ap₂ (◌++◌) (word_bytes-be_bytes s.a) (word_bytes-be_bytes s.b))
                (word_bytes-be_bytes s.c))
              (word_bytes-be_bytes s.d))
            (word_bytes-be_bytes s.e))
          (word_bytes-be_bytes s.f))
        (word_bytes-be_bytes s.g))
      (word_bytes-be_bytes s.h)

last_bytes-last_block :
    (rem : ℕ) (rest : Bytes) → length rest ≡ rem → last_bytes rem rest ≡ last_block rem rest
unfolding last_bytes last_block
last_bytes-last_block rem rest h =
    ap (λ r. store rem (128 ∷ []) (store 0 r (zeros 64))) (sym (take_all rem rest (omega arith)))

last_block-IsBytes : (rem : ℕ) (rest : Bytes) → IsBytes rest → IsBytes (last_block rem rest)
unfolding last_block
last_block-IsBytes rem rest h =
    store-IsBytes rem (128 ∷ []) (store 0 (take rem rest) (zeros 64)) (omega arith, tt)
      (store-IsBytes 0 (take rem rest) (zeros 64) (take-IsBytes rem rest h) (zeros-IsBytes 64))

-- The block whose end is the length.
length_block :
    (s : HashState) (v : ℕ) (block : Bytes)
    → IsBytes block
    → transform_words s (block_words 16 0 (store 56 (length_bytes 8 0 v) block))
      ≡ transform s (store 56 (be_bytes 8 v) block)
length_block s v block h =
    ap (λ b. transform_words s (block_words 16 0 (store 56 b block))) (length_bytes-be_bytes v)
    ∙ transform_words-transform s (store 56 (be_bytes 8 v) block)
        (store-IsBytes 56 (be_bytes 8 v) block (be_bytes-IsBytes 8 v) h)

finish_literal-finish :
    (size rem : ℕ) (rest : Bytes) (s : HashState)
    → length rest ≡ rem
    → IsBytes rest
    → finish_literal size rem rest s ≡ finish size rem rest s
unfolding finish_literal finish
finish_literal-finish size rem rest s h b =
    let v = size * 2 ^ 3 % 2 ^ 64 in
    let i = last_block-IsBytes rem rest b in
    ap₂ (λ x y. if ltb rem 56 then x else y)
      (ap (λ l. transform_words s (block_words 16 0 (store 56 (length_bytes 8 0 v) l)))
          (last_bytes-last_block rem rest h)
        ∙ length_block s v (last_block rem rest) i)
      (ap
          (λ l.
            transform_words (transform_words s (block_words 16 0 l))
              (block_words 16 0 (store 56 (length_bytes 8 0 v) (zeros 64))))
          (last_bytes-last_block rem rest h)
        ∙ ap (λ t. transform_words t (block_words 16 0 (store 56 (length_bytes 8 0 v) (zeros 64))))
            (transform_words-transform s (last_block rem rest) i)
        ∙ length_block (transform s (last_block rem rest)) v (zeros 64) (zeros-IsBytes 64))

-- A literal of bytes is given the same hash at compile time, which puts words together with `|`, cuts bytes out with
-- shifts and masks and sets all words of a round at once, as `compute` gives the text when the program runs.
pub sha256-compute : (bytes : Bytes) → IsBytes bytes → sha256 bytes ≡ compute bytes
unfolding sha256 compute
sha256-compute bytes h =
    let size = length bytes in
    let rest = drop (size / 64 * 64) bytes in
    let rem = size - size / 64 * 64 in
    let l = length-drop (size / 64 * 64) bytes in
    ap (λ s. state_to_hash (finish_literal size rem rest s))
      (transform_all-run_blocks (size / 64) 0 bytes initial_state h)
    ∙ ap state_to_hash (
        finish_literal-finish size rem rest (run_blocks (size / 64) 0 bytes initial_state) l
          (drop-IsBytes (size / 64 * 64) bytes h))
    ∙ state_to_hash-state_bytes
        (finish size rem rest (run_blocks (size / 64) 0 bytes initial_state))
