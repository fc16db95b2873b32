-- ===== src/Sha256/Literal.antt =====
-- utils/hash/sha256/sha256_literal.hpp: the same hash of a literal, at compile time. Its table and its extension of a
-- block of words are those of sha256.cpp, and an array is a list of its elements.
pub mod Agreement
use module_oriented_software.Common.{
  ℕ, zero, suc, ◌+◌, ◌-◌, ◌*◌, ◌/◌, ◌%◌, ◌^◌, ltb, bit_and, bit_or, bit_xor, List, [], ◌∷◌, ◌++◌,
  length, drop, if◌then◌else◌,
}
use module_oriented_software.Sha256.Compute.{
  Bytes, HashState, sha256_k, initial_state, nth, zeros, store, rotr, extend_words, add_states,
}

unfoldable pub u8x4_to_be_u32 : ℕ → ℕ → ℕ → ℕ → ℕ
u8x4_to_be_u32 a b c d =
    bit_or (bit_or (bit_or d (c * 2 ^ 8 % 2 ^ 32)) (b * 2 ^ 16 % 2 ^ 32)) (a * 2 ^ 24 % 2 ^ 32)

-- `u8_to_block`: so many words, from the one of number `i` on.
unfoldable pub block_words : ℕ → ℕ → Bytes → List ℕ
unfolding u8x4_to_be_u32 nth
block_words zero i bytes = []
block_words (suc n) i bytes =
    u8x4_to_be_u32 (nth (i * 4) bytes) (nth (i * 4 + 1) bytes) (nth (i * 4 + 2) bytes)
      (nth (i * 4 + 3) bytes)
    ∷ block_words n (i + 1) bytes

-- `u8_to_blocks_`: so many blocks, from the one of number `i` on.
unfoldable pub u8_to_blocks : ℕ → ℕ → Bytes → List (List ℕ)
unfolding block_words
u8_to_blocks zero i bytes = []
u8_to_blocks (suc n) i bytes = block_words 16 0 (drop (i * 64) bytes) ∷ u8_to_blocks n (i + 1) bytes

-- One round of `transform`, with its `SHA256_K[i]` and `W[i]`: all words are set at once.
unfoldable pub literal_round : ℕ → ℕ → HashState → HashState
unfolding rotr
literal_round k w s =
    let s0 = bit_xor (bit_xor (rotr s.a 2) (rotr s.a 13)) (rotr s.a 22) in
    let maj = bit_xor (bit_xor (bit_and s.a s.b) (bit_and s.a s.c)) (bit_and s.b s.c) in
    let t2 = (s0 + maj) % 2 ^ 32 in
    let s1 = bit_xor (bit_xor (rotr s.e 6) (rotr s.e 11)) (rotr s.e 25) in
    let ch = bit_xor (bit_and s.e s.f) (bit_and (2 ^ 32 - 1 - s.e) s.g) in
    let t1 = (s.h + s1 + ch + k + w) % 2 ^ 32 in
    record {
      a = (t1 + t2) % 2 ^ 32;
      b = s.a;
      c = s.b;
      d = s.c;
      e = (s.d + t1) % 2 ^ 32;
      f = s.e;
      g = s.f;
      h = s.g;
    }

unfoldable pub literal_rounds : List ℕ → List ℕ → HashState → HashState
unfolding literal_round
literal_rounds [] ws s = s
literal_rounds (k ∷ ks) [] s = s
literal_rounds (k ∷ ks) (w ∷ ws) s = literal_rounds ks ws (literal_round k w s)

-- `transform`, of a block of words
unfoldable pub transform_words : HashState → List ℕ → HashState
unfolding extend_words literal_rounds add_states
transform_words s words = add_states s (literal_rounds sha256_k (extend_words 48 16 words) s)

-- The loop of `sha256` over the blocks.
unfoldable pub transform_all : List (List ℕ) → HashState → HashState
unfolding transform_words
transform_all [] s = s
transform_all (b ∷ bs) s = transform_all bs (transform_words s b)

-- The loop that writes the length: the byte of number `i` and those behind it, so many.
unfoldable pub length_bytes : ℕ → ℕ → ℕ → Bytes
length_bytes zero i v = []
length_bytes (suc n) i v = bit_and (v / 2 ^ (56 - i * 8)) 255 ∷ length_bytes n (i + 1) v

-- One word of `state_to_hash`.
unfoldable pub word_bytes : ℕ → Bytes
word_bytes v =
    bit_and (v / 2 ^ 24) 255
    ∷ bit_and (v / 2 ^ 16) 255
    ∷ bit_and (v / 2 ^ 8) 255
    ∷ bit_and v 255
    ∷ []

unfoldable pub state_to_hash : HashState → Bytes
unfolding word_bytes
state_to_hash s =
    word_bytes s.a
    ++ word_bytes s.b
    ++ word_bytes s.c
    ++ word_bytes s.d
    ++ word_bytes s.e
    ++ word_bytes s.f
    ++ word_bytes s.g
    ++ word_bytes s.h

-- `LastB`, with the rest of the bytes copied and the bit behind it.
unfoldable pub last_bytes : ℕ → Bytes → Bytes
unfolding store zeros
last_bytes rem rest = store rem (128 ∷ []) (store 0 rest (zeros 64))

-- What `sha256` does behind its first loop.
unfoldable pub finish_literal : ℕ → ℕ → Bytes → HashState → HashState
unfolding last_bytes transform_words block_words store length_bytes zeros
finish_literal size rem rest s =
    if ltb rem 56
    then transform_words s (
        block_words 16 0
          (store 56 (length_bytes 8 0 (size * 2 ^ 3 % 2 ^ 64)) (last_bytes rem rest)))
    else transform_words (transform_words s (block_words 16 0 (last_bytes rem rest)))
        (block_words 16 0 (store 56 (length_bytes 8 0 (size * 2 ^ 3 % 2 ^ 64)) (zeros 64)))

unfoldable pub sha256 : Bytes → Bytes
unfolding u8_to_blocks transform_all finish_literal state_to_hash
sha256 bytes =
    let size = length bytes in
    let block_count = size / 64 in
    let state = transform_all (u8_to_blocks block_count 0 bytes) initial_state in
    state_to_hash
      (finish_literal size (size - block_count * 64) (drop (block_count * 64) bytes) state)
