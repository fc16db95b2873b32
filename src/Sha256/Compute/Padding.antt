-- ===== src/Sha256/Compute/Padding.antt =====
-- utils/hash/sha256/sha256.cpp: what `compute` makes of the last bytes of a text, as a padded message whose blocks
-- are hashed in turn.
use module_oriented_software.Common.{
  ℕ, ◌≡◌, refl, sym, ap, ap₂, ◌∙◌, ◌≤◌, ◌<◌, ◌+◌, ◌-◌, ◌*◌, ◌/◌, ◌%◌, ◌^◌, ◌∷◌, ◌++◌, length, take,
  drop, arith, length-append, length-drop, take_all, drop_all, ltb, ltb→lt, Bool-cases, inl, inr,
  if◌then◌else◌,
}
use mathlib.Core.List.{append-nil, append_assoc}
use module_oriented_software.Sha256.Compute.{
  Bytes, HashState, initial_state, zeros, store, be_bytes, transform, run_blocks, state_bytes,
  last_block, finish, compute,
}
use module_oriented_software.Sha256.Compute.Blocks.{
  process, run_blocks-process, process-append, length-zeros, zeros-add, length-be_bytes,
  store-append, drop-zeros, last_block_lem, take-append, drop-append,
}

-- The standard's padding: a bit, zeros up to 8 bytes in front of the end of a block, and the number of bits, in 64.
abbrev pub padding : ℕ → Bytes
padding size = 128 ∷ zeros ((119 - size % 64) % 64) ++ be_bytes 8 (size * 2 ^ 3 % 2 ^ 64)

store-length :
    (v : ℕ) (xs : Bytes)
    → length xs ≡ 56
    → store 56 (be_bytes 8 v) (xs ++ zeros 8) ≡ xs ++ be_bytes 8 v
unfolding zeros
store-length v xs h =
    rw
      (
        store-append 56 xs (be_bytes 8 v) (zeros 8) h,
        length-be_bytes 8 v,
        drop-zeros 8 8 (omega arith),
      )
      (ap (◌++◌ xs) (append-nil (be_bytes 8 v)))

-- The number of bits, as the 8 bytes at the end of the last block.
abbrev bits : ℕ → Bytes
bits size = be_bytes 8 (size * 2 ^ 3 % 2 ^ 64)

-- Where the length fits behind the rest, both stand in one block.
short_block :
    (size rem : ℕ) (rest : Bytes)
    → length rest ≡ rem
    → size % 64 ≡ rem
    → rem < 56
    → store 56 (bits size) (last_block rem rest) ≡ take 64 (rest ++ padding size)
short_block size rem rest h e k =
    let z : (119 - size % 64) % 64 ≡ 55 - rem = omega arith in
    let j : 63 - rem ≡ 55 - rem + 8 = omega arith in
    let l = length-append rest (128 ∷ zeros (55 - rem)) in
    let lz = length-zeros (55 - rem) in
    let lm = length-append (rest ++ 128 ∷ zeros (55 - rem)) (bits size) in
    let lb = length-be_bytes 8 (size * 2 ^ 3 % 2 ^ 64) in
    ap (store 56 (bits size)) (
      last_block_lem rem rest h (omega arith)
      ∙ ap (λ n. rest ++ 128 ∷ zeros n) j
      ∙ ap (λ zs. rest ++ 128 ∷ zs) (zeros-add (55 - rem) 8)
      ∙ sym (append_assoc rest (128 ∷ zeros (55 - rem)) (zeros 8)))
    ∙ store-length (size * 2 ^ 3 % 2 ^ 64) (rest ++ 128 ∷ zeros (55 - rem)) (omega arith)
    ∙ sym (take_all 64 ((rest ++ 128 ∷ zeros (55 - rem)) ++ bits size) (omega arith))
    ∙ ap (take 64) (
        append_assoc rest (128 ∷ zeros (55 - rem)) (bits size)
        ∙ ap (λ n. rest ++ (128 ∷ zeros n ++ bits size)) (sym z))

-- Where it does not, the rest and the bit fill one block, and zeros and the length another.
long_blocks :
    (size rem : ℕ) (rest : Bytes)
    → length rest ≡ rem
    → size % 64 ≡ rem
    → 56 ≤ rem
    → rem < 64
    → (last_block rem rest ≡ take 64 (rest ++ padding size))
      × (store 56 (bits size) (zeros 64) ≡ take 64 (drop 64 (rest ++ padding size)))
long_blocks size rem rest h e k b =
    let z : (119 - size % 64) % 64 ≡ 63 - rem + 56 = omega arith in
    let head = rest ++ 128 ∷ zeros (63 - rem) in
    let l = length-append rest (128 ∷ zeros (63 - rem)) in
    let lz = length-zeros (63 - rem) in
    let lo = length-zeros 56 in
    let lm = length-append (zeros 56) (bits size) in
    let lb = length-be_bytes 8 (size * 2 ^ 3 % 2 ^ 64) in
    let lh : length head ≡ 64 = omega arith in
    let message : rest ++ padding size ≡ head ++ (zeros 56 ++ bits size) =
      ap (λ n. rest ++ (128 ∷ zeros n ++ bits size)) z
      ∙ ap (λ zs. rest ++ (128 ∷ zs ++ bits size)) (zeros-add (63 - rem) 56)
      ∙ ap (λ zs. rest ++ 128 ∷ zs) (append_assoc (zeros (63 - rem)) (zeros 56) (bits size))
      ∙ sym (append_assoc rest (128 ∷ zeros (63 - rem)) (zeros 56 ++ bits size)) in
    (
      last_block_lem rem rest h b
          ∙ sym (take_all 64 head (omega arith))
          ∙ sym (take-append 64 head (zeros 56 ++ bits size) (omega arith))
          ∙ ap (take 64) (sym message),
      ap (store 56 (bits size)) (zeros-add 56 8)
          ∙ store-length (size * 2 ^ 3 % 2 ^ 64) (zeros 56) lo
          ∙ sym (take_all 64 (zeros 56 ++ bits size) (omega arith))
          ∙ ap (λ zs. take 64 (zs ++ (zeros 56 ++ bits size)))
              (sym (drop_all 64 head (omega arith)))
          ∙ ap (take 64) (sym (drop-append 64 head (zeros 56 ++ bits size) (omega arith)))
          ∙ ap (λ zs. take 64 (drop 64 zs)) (sym message),
    )

-- How many blocks the padding makes of the rest.
abbrev pub last_blocks : ℕ → ℕ
last_blocks rem = if ltb rem 56 then 1 else 2

finish-process :
    (size rem : ℕ) (rest : Bytes) (s : HashState)
    → length rest ≡ rem
    → size % 64 ≡ rem
    → finish size rem rest s ≡ process (last_blocks rem) (rest ++ padding size) s
unfolding finish
finish-process size rem rest s h e = elim (Bool-cases (ltb rem 56)) [
  | inl t ↦
      ap
        (λ c.
          if c
          then transform s (store 56 (bits size) (last_block rem rest))
          else transform (transform s (last_block rem rest)) (store 56 (bits size) (zeros 64)))
        t
      ∙ ap (transform s) (short_block size rem rest h e (ltb→lt rem 56 t))
      ∙ ap (λ c. process (if c then 1 else 2) (rest ++ padding size) s) (sym t)
  | inr t ↦
      let (p, q) = long_blocks size rem rest h e (ground arith) (omega arith) in
      ap
        (λ c.
          if c
          then transform s (store 56 (bits size) (last_block rem rest))
          else transform (transform s (last_block rem rest)) (store 56 (bits size) (zeros 64)))
        t
      ∙ ap₂ (λ a b. transform (transform s a) b) p q
      ∙ ap (λ c. process (if c then 1 else 2) (rest ++ padding size) s) (sym t)
]

length-padding : (size : ℕ) → length (padding size) ≡ (119 - size % 64) % 64 + 9
length-padding size =
    let l = length-append (zeros ((119 - size % 64) % 64)) (bits size) in
    let lz = length-zeros ((119 - size % 64) % 64) in
    let lb = length-be_bytes 8 (size * 2 ^ 3 % 2 ^ 64) in omega arith

last_blocks_count :
    (size : ℕ) → size + ((119 - size % 64) % 64 + 9) ≡ (size / 64 + last_blocks (size % 64)) * 64
last_blocks_count size = ground arith

-- What `compute` hashes is the padded message of the standard: the text, a bit, as few zeros as make whole blocks, and the
-- number of bits modulo 2 ^ 64. The padded message is a whole number of blocks, and the hash is
-- that of the state after all of them, one after the other, whichever of the two ways the last bytes go.
pub compute-padding :
    (bytes : Bytes)
    → let message = bytes ++ padding (length bytes) in
      (length message ≡ length message / 64 * 64)
      × (compute bytes ≡ state_bytes (process (length message / 64) message initial_state))
unfolding compute
compute-padding bytes =
    let size = length bytes in
    let q = size / 64 in
    let r : size - q * 64 ≡ size % 64 = omega arith in
    let l = length-append bytes (padding size) in
    let lp = length-padding size in
    let c = last_blocks_count size in
    let n : length (bytes ++ padding size) / 64 ≡ q + last_blocks (size % 64) = omega arith in
    let d = length-drop (q * 64) bytes in
    (
      omega arith,
      ap state_bytes (
          ap (λ k. finish size k (drop (q * 64) bytes) (run_blocks q 0 bytes initial_state)) r
          ∙ ap (finish size (size % 64) (drop (q * 64) bytes))
              (run_blocks-process q 0 bytes initial_state)
          ∙ finish-process size (size % 64) (drop (q * 64) bytes) (process q bytes initial_state)
              (omega arith) refl
          ∙ sym (
              process-append q (last_blocks (size % 64)) bytes (padding size) initial_state
                (omega arith))
          ∙ ap (λ k. process k (bytes ++ padding size) initial_state) (sym n)),
    )
