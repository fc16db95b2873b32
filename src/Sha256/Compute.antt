-- ===== src/Sha256/Compute.antt =====
-- utils/hash/sha256/sha256.cpp and intmem.hpp: the hash of a text of bytes. Words of 32 bits and their sums wrap at
-- 2 ^ 32. A block of memory is the list of its bytes, and a read behind its end gives 0, which no call makes.
-- The machine stores the lowest byte first, so that `loadu_be` and `storeu_be` swap.
pub mod Blocks
pub mod Padding
pub mod Hashes
use module_oriented_software.Common.{
  ℕ, zero, suc, ◌+◌, ◌-◌, ◌*◌, ◌/◌, ◌%◌, ◌^◌, ltb, bit_and, bit_or, bit_xor, List, [], ◌∷◌, ◌++◌,
  length, take, drop, if◌then◌else◌,
}

abbrev pub Bytes : Type 0
Bytes = List ℕ

-- `StateType`
pub record HashState : Type 0 where
  pub a : ℕ
  pub b : ℕ
  pub c : ℕ
  pub d : ℕ
  pub e : ℕ
  pub f : ℕ
  pub g : ℕ
  pub h : ℕ

abbrev pub sha256_k : List ℕ
sha256_k =
    1116352408 ∷ 1899447441 ∷ 3049323471 ∷ 3921009573 ∷ 961987163 ∷ 1508970993 ∷ 2453635748
    ∷ 2870763221 ∷ 3624381080 ∷ 310598401 ∷ 607225278 ∷ 1426881987 ∷ 1925078388 ∷ 2162078206
    ∷ 2614888103 ∷ 3248222580 ∷ 3835390401 ∷ 4022224774 ∷ 264347078 ∷ 604807628 ∷ 770255983
    ∷ 1249150122 ∷ 1555081692 ∷ 1996064986 ∷ 2554220882 ∷ 2821834349 ∷ 2952996808 ∷ 3210313671
    ∷ 3336571891 ∷ 3584528711 ∷ 113926993 ∷ 338241895 ∷ 666307205 ∷ 773529912 ∷ 1294757372
    ∷ 1396182291 ∷ 1695183700 ∷ 1986661051 ∷ 2177026350 ∷ 2456956037 ∷ 2730485921 ∷ 2820302411
    ∷ 3259730800 ∷ 3345764771 ∷ 3516065817 ∷ 3600352804 ∷ 4094571909 ∷ 275423344 ∷ 430227734
    ∷ 506948616 ∷ 659060556 ∷ 883997877 ∷ 958139571 ∷ 1322822218 ∷ 1537002063 ∷ 1747873779
    ∷ 1955562222 ∷ 2024104815 ∷ 2227730452 ∷ 2361852424 ∷ 2428436474 ∷ 2756734187 ∷ 3204031479
    ∷ 3329325298 ∷ []

abbrev pub initial_state : HashState
initial_state = record {
  a = 1779033703;
  b = 3144134277;
  c = 1013904242;
  d = 2773480762;
  e = 1359893119;
  f = 2600822924;
  g = 528734635;
  h = 1541459225;
}

unfoldable pub nth : ℕ → List ℕ → ℕ
nth n [] = 0
nth zero (x ∷ xs) = x
nth (suc n) (x ∷ xs) = nth n xs

-- `memset` of zeros
unfoldable pub zeros : ℕ → Bytes
zeros zero = []
zeros (suc n) = 0 ∷ zeros n

-- `memcpy` of bytes to a place in a block
unfoldable pub store : ℕ → Bytes → Bytes → Bytes
store offset bytes block = take offset block ++ (bytes ++ drop (offset + length bytes) block)

-- `storeu_be` of a number of so many bytes, as the bytes that it stores
unfoldable pub be_bytes : ℕ → ℕ → Bytes
be_bytes zero v = []
be_bytes (suc n) v = v / 256 ^ n % 256 ∷ be_bytes n v

-- `loadu_be<uint32_t>`
unfoldable pub loadu_be : ℕ → Bytes → ℕ
unfolding nth
loadu_be p bytes =
    nth p bytes * 2 ^ 24
    + nth (p + 1) bytes * 2 ^ 16
    + nth (p + 2) bytes * 2 ^ 8
    + nth (p + 3) bytes

unfoldable pub rotr : ℕ → ℕ → ℕ
rotr v off = bit_or (v / 2 ^ off) (v * 2 ^ (32 - off) % 2 ^ 32)

-- The first loop of `transform`: so many words, from the one of number `i` on.
unfoldable pub load_words : ℕ → ℕ → Bytes → List ℕ
unfolding loadu_be
load_words zero i bytes = []
load_words (suc n) i bytes = loadu_be (i * 4) bytes ∷ load_words n (i + 1) bytes

-- The second loop: `w` is the part of `W` in front of `i`.
unfoldable pub extend_words : ℕ → ℕ → List ℕ → List ℕ
unfolding rotr nth
extend_words zero i w = w
extend_words (suc n) i w =
    let s0 =
      bit_xor (bit_xor (rotr (nth (i - 15) w) 7) (rotr (nth (i - 15) w) 18))
        (nth (i - 15) w / 2 ^ 3) in
    let s1 =
      bit_xor (bit_xor (rotr (nth (i - 2) w) 17) (rotr (nth (i - 2) w) 19))
        (nth (i - 2) w / 2 ^ 10) in
    extend_words n (i + 1) (w ++ (nth (i - 16) w + s0 + nth (i - 7) w + s1) % 2 ^ 32 ∷ [])

-- One round of the third loop, with its `SHA256_K[i]` and `W[i]`.
unfoldable pub round : ℕ → ℕ → HashState → HashState
unfolding rotr
round k w s =
    let s0 = bit_xor (bit_xor (rotr s.a 2) (rotr s.a 13)) (rotr s.a 22) in
    let maj = bit_xor (bit_xor (bit_and s.a s.b) (bit_and s.a s.c)) (bit_and s.b s.c) in
    let t2 = (s0 + maj) % 2 ^ 32 in
    let s1 = bit_xor (bit_xor (rotr s.e 6) (rotr s.e 11)) (rotr s.e 25) in
    let ch = bit_xor (bit_and s.e s.f) (bit_and (2 ^ 32 - 1 - s.e) s.g) in
    let t1 = (s.h + s1 + ch + k + w) % 2 ^ 32 in
    record {
      a = (t1 + t2) % 2 ^ 32;
      b = s.a;
      c = s.b;
      d = s.c;
      e = (s.d + t1) % 2 ^ 32;
      f = s.e;
      g = s.f;
      h = s.g;
    }

unfoldable pub rounds : List ℕ → List ℕ → HashState → HashState
unfolding round
rounds [] ws s = s
rounds (k ∷ ks) [] s = s
rounds (k ∷ ks) (w ∷ ws) s = rounds ks ws (round k w s)

-- The last loop: `S[i] += InS[i]`.
unfoldable pub add_states : HashState → HashState → HashState
add_states s t = record {
  a = (s.a + t.a) % 2 ^ 32;
  b = (s.b + t.b) % 2 ^ 32;
  c = (s.c + t.c) % 2 ^ 32;
  d = (s.d + t.d) % 2 ^ 32;
  e = (s.e + t.e) % 2 ^ 32;
  f = (s.f + t.f) % 2 ^ 32;
  g = (s.g + t.g) % 2 ^ 32;
  h = (s.h + t.h) % 2 ^ 32;
}

unfoldable pub transform : HashState → Bytes → HashState
unfolding load_words extend_words rounds add_states
transform s bytes = add_states s (rounds sha256_k (extend_words 48 16 (load_words 16 0 bytes)) s)

-- The loop of `compute` over the whole blocks: so many, from the one of number `i` on.
unfoldable pub run_blocks : ℕ → ℕ → Bytes → HashState → HashState
unfolding transform
run_blocks zero i bytes s = s
run_blocks (suc n) i bytes s = run_blocks n (i + 1) bytes (transform s (drop (i * 64) bytes))

-- The last loop of `compute`
unfoldable pub state_bytes : HashState → Bytes
unfolding be_bytes
state_bytes s =
    be_bytes 4 s.a
    ++ be_bytes 4 s.b
    ++ be_bytes 4 s.c
    ++ be_bytes 4 s.d
    ++ be_bytes 4 s.e
    ++ be_bytes 4 s.f
    ++ be_bytes 4 s.g
    ++ be_bytes 4 s.h

-- `LastBlock`, with the rest of the bytes and the bit behind it
unfoldable pub last_block : ℕ → Bytes → Bytes
unfolding store zeros
last_block rem rest = store rem (128 ∷ []) (store 0 (take rem rest) (zeros 64))

-- What `compute` does from its first `memset` on.
unfoldable pub finish : ℕ → ℕ → Bytes → HashState → HashState
unfolding last_block transform store be_bytes zeros
finish size rem rest s =
    if ltb rem 56
    then transform s (store 56 (be_bytes 8 (size * 2 ^ 3 % 2 ^ 64)) (last_block rem rest))
    else transform (transform s (last_block rem rest))
        (store 56 (be_bytes 8 (size * 2 ^ 3 % 2 ^ 64)) (zeros 64))

unfoldable pub compute : Bytes → Bytes
unfolding run_blocks finish state_bytes
compute bytes =
    let size = length bytes in
    let block_count = size / 64 in
    let state = run_blocks block_count 0 bytes initial_state in
    state_bytes (finish size (size - block_count * 64) (drop (block_count * 64) bytes) state)

-- `sha256_from_string`, of a text of 32 bytes or more
unfoldable pub sha256_from_string : Bytes → Bytes
sha256_from_string bytes = take 32 bytes
