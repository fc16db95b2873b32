-- ===== src/Sha256/Compute/Blocks.antt =====
-- utils/hash/sha256/sha256.cpp: messages as blocks that are hashed in turn, and what the calls of `memset` and
-- `memcpy` leave in a block.
use module_oriented_software.Common.{
  ℕ, zero, suc, ◌≡◌, refl, sym, ap, ap₂, ◌∙◌, ◌≤◌, ◌<◌, ◌+◌, ◌-◌, ◌*◌, [], ◌∷◌, ◌++◌, length, take,
  drop, arith, length-drop, drop-add, take_all, drop_all,
}
use native.Mathlib.Nat.{suc-add}
use module_oriented_software.Sha256.Compute.{
  Bytes, HashState, nth, zeros, store, be_bytes, loadu_be, load_words, transform, add_states,
  rounds, sha256_k, extend_words, run_blocks, last_block,
}

-- The state after so many blocks of a message, from a state on.
abbrev pub process : ℕ → Bytes → HashState → HashState
process zero bytes s = s
process (suc n) bytes s = process n (drop 64 bytes) (transform s (take 64 bytes))

nth-take : (i n : ℕ) (xs : Bytes) → i < n → nth i (take n xs) ≡ nth i xs
unfolding nth
nth-take i zero xs h = absurd (omega arith)
nth-take i (suc n) [] h = refl
nth-take zero (suc n) (x ∷ xs) h = refl
nth-take (suc i) (suc n) (x ∷ xs) h = nth-take i n xs (omega arith)

load_words-take :
    (n i : ℕ) (xs : Bytes) → (i + n) * 4 ≤ 64 → load_words n i (take 64 xs) ≡ load_words n i xs
unfolding load_words loadu_be
load_words-take zero i xs h = refl
load_words-take (suc n) i xs h =
    rw
      (
        nth-take (i * 4) 64 xs (omega arith),
        nth-take (i * 4 + 1) 64 xs (omega arith),
        nth-take (i * 4 + 2) 64 xs (omega arith),
        nth-take (i * 4 + 3) 64 xs (omega arith),
        load_words-take n (i + 1) xs (omega arith),
      )
      refl

transform-take : (s : HashState) (xs : Bytes) → transform s (take 64 xs) ≡ transform s xs
unfolding transform
transform-take s xs =
    ap (λ w. add_states s (rounds sha256_k (extend_words 48 16 w) s))
      (load_words-take 16 0 xs (omega arith))

pub run_blocks-process :
    (n i : ℕ) (bytes : Bytes) (s : HashState)
    → run_blocks n i bytes s ≡ process n (drop (i * 64) bytes) s
unfolding run_blocks
run_blocks-process zero i bytes s = refl
run_blocks-process (suc n) i bytes s =
    let j : (i + 1) * 64 ≡ i * 64 + 64 = omega arith in
    let e : drop ((i + 1) * 64) bytes ≡ drop 64 (drop (i * 64) bytes) =
      ap (λ k. drop k bytes) j ∙ drop-add (i * 64) 64 bytes in
    rw
      (
        run_blocks-process n (i + 1) bytes (transform s (drop (i * 64) bytes)),
        e,
        transform-take s (drop (i * 64) bytes),
      )
      refl

pub take-append : (n : ℕ) (xs ys : Bytes) → n ≤ length xs → take n (xs ++ ys) ≡ take n xs
take-append zero xs ys h = refl
take-append (suc n) [] ys h = absurd (omega arith)
take-append (suc n) (x ∷ xs) ys h = ap (◌∷◌ x) (take-append n xs ys (omega arith))

pub drop-append : (n : ℕ) (xs ys : Bytes) → n ≤ length xs → drop n (xs ++ ys) ≡ drop n xs ++ ys
drop-append zero xs ys h = refl
drop-append (suc n) [] ys h = absurd (omega arith)
drop-append (suc n) (x ∷ xs) ys h = drop-append n xs ys (omega arith)

pub process-append :
    (n m : ℕ) (xs ys : Bytes) (s : HashState)
    → n * 64 ≤ length xs
    → process (n + m) (xs ++ ys) s ≡ process m (drop (n * 64) xs ++ ys) (process n xs s)
process-append zero m xs ys s h =
    let j : 0 + m ≡ m = omega arith in ap (λ k. process k (xs ++ ys) s) j
process-append (suc n) m xs ys s h =
    let l = length-drop 64 xs in
    let j : suc n * 64 ≡ 64 + n * 64 = omega arith in
    let e : drop (suc n * 64) xs ≡ drop (n * 64) (drop 64 xs) =
      ap (λ k. drop k xs) j ∙ drop-add 64 (n * 64) xs in
    ap (λ k. process k (xs ++ ys) s) (suc-add n m)
    ∙ ap₂ (λ a b. process (n + m) b (transform s a)) (take-append 64 xs ys (omega arith))
        (drop-append 64 xs ys (omega arith))
    ∙ process-append n m (drop 64 xs) ys (transform s (take 64 xs)) (omega arith)
    ∙ ap (λ zs. process m (zs ++ ys) (process n (drop 64 xs) (transform s (take 64 xs)))) (sym e)

pub length-zeros : (n : ℕ) → length (zeros n) ≡ n
unfolding zeros
length-zeros zero = refl
length-zeros (suc n) = ap suc (length-zeros n)

pub zeros-add : (n m : ℕ) → zeros (n + m) ≡ zeros n ++ zeros m
unfolding zeros
zeros-add zero m = ap zeros (omega arith)
zeros-add (suc n) m = rw (suc-add n m) (ap (◌∷◌ 0) (zeros-add n m))

pub length-be_bytes : (n v : ℕ) → length (be_bytes n v) ≡ n
unfolding be_bytes
length-be_bytes zero v = refl
length-be_bytes (suc n) v = ap suc (length-be_bytes n v)

-- What is written behind a part of a block leaves that part.
pub store-append :
    (n : ℕ) (xs bytes ys : Bytes)
    → length xs ≡ n
    → store n bytes (xs ++ ys) ≡ xs ++ (bytes ++ drop (length bytes) ys)
unfolding store
store-append n xs bytes ys h =
    rw
      (
        take-append n xs ys (omega arith),
        take_all n xs (omega arith),
        drop-add n (length bytes) (xs ++ ys),
        drop-append n xs ys (omega arith),
        drop_all n xs (omega arith),
      )
      refl

pub drop-zeros : (n m : ℕ) → n ≤ m → drop n (zeros m) ≡ zeros (m - n)
unfolding zeros
drop-zeros zero m h = ap zeros (omega arith)
drop-zeros (suc n) zero h = absurd (omega arith)
drop-zeros (suc n) (suc m) h = drop-zeros n m (omega arith) ∙ ap zeros (omega arith)

pub last_block_lem :
    (rem : ℕ) (rest : Bytes)
    → length rest ≡ rem
    → rem < 64
    → last_block rem rest ≡ rest ++ 128 ∷ zeros (63 - rem)
unfolding last_block
last_block_lem rem rest h k =
    rw
      (
        take_all rem rest (omega arith),
        store-append 0 [] rest (zeros 64) refl,
        h,
        drop-zeros rem 64 (omega arith),
        store-append rem rest (128 ∷ []) (zeros (64 - rem)) h,
        drop-zeros 1 (64 - rem) (omega arith),
      )
      (let l : 64 - rem - 1 ≡ 63 - rem = omega arith in ap (λ n. rest ++ 128 ∷ zeros n) l)
