-- ===== src/Sha256/Compute/Hashes.antt =====
-- utils/hash/sha256/sha256.cpp: what a hash looks like, and how it comes out of a message again.
use module_oriented_software.Common.{
  ℕ, zero, suc, ◌≡◌, ◌∙◌, ◌<◌, ◌+◌, ◌/◌, ◌^◌, [], ◌∷◌, ◌++◌, length, drop, ◌-◌, ◌*◌, arith,
  length-append, take_all,
}
use module_oriented_software.Sha256.Compute.{
  Bytes, HashState, be_bytes, state_bytes, compute, finish, run_blocks, initial_state,
  sha256_from_string,
}
use module_oriented_software.Sha256.Compute.Blocks.{length-be_bytes, take-append}

abbrev pub IsBytes : Bytes → Type 0
IsBytes [] = Unit {0}
IsBytes (b ∷ bs) = (b < 256) × IsBytes bs

pub append-IsBytes : (xs ys : Bytes) → IsBytes xs → IsBytes ys → IsBytes (xs ++ ys)
append-IsBytes [] ys h k = k
append-IsBytes (x ∷ xs) ys h k = (h.0, append-IsBytes xs ys h.1 k)

pub be_bytes-IsBytes : (n v : ℕ) → IsBytes (be_bytes n v)
unfolding be_bytes
be_bytes-IsBytes zero v = tt
be_bytes-IsBytes (suc n) v = (let q = v / 256 ^ n in omega arith, be_bytes-IsBytes n v)

-- So many bytes.
record IsBlock (n : ℕ) (xs : Bytes) : Type 0 where
  measured : length xs ≡ n
  of_bytes : IsBytes xs

append-word : {n : ℕ} {xs : Bytes} (v : ℕ) → IsBlock n xs → IsBlock (n + 4) (xs ++ be_bytes 4 v)
append-word {n} {xs} v b = record {
  measured =
      let e = length-append xs (be_bytes 4 v) in
      let l = b.measured in let k = length-be_bytes 4 v in omega arith;
  of_bytes = append-IsBytes xs (be_bytes 4 v) b.of_bytes (be_bytes-IsBytes 4 v);
}

state_bytes-IsBlock : (s : HashState) → IsBlock 32 (state_bytes s)
unfolding state_bytes
state_bytes-IsBlock s =
    let first : IsBlock 4 (be_bytes 4 s.a) = record {
      measured = length-be_bytes 4 s.a;
      of_bytes = be_bytes-IsBytes 4 s.a;
    } in
    append-word s.h (
      append-word s.g (
        append-word s.f
          (append-word s.e (append-word s.d (append-word s.c (append-word s.b first))))))

-- A hash is 32 bytes, each below 256, whatever is hashed. A text that begins with the hash, as the invitation of a
-- header does, is read back as the hash.
sha256_from_string-compute :
    (bytes rest : Bytes)
    → (length (compute bytes) ≡ 32)
      × IsBytes (compute bytes)
      × (sha256_from_string (compute bytes ++ rest) ≡ compute bytes)
unfolding compute sha256_from_string
sha256_from_string-compute bytes rest =
    let size = length bytes in
    let b = state_bytes-IsBlock (
      finish size (size - size / 64 * 64) (drop (size / 64 * 64) bytes)
        (run_blocks (size / 64) 0 bytes initial_state)) in
    let l = b.measured in
    (
      l,
      b.of_bytes,
      take-append 32 (compute bytes) rest (omega arith) ∙ take_all 32 (compute bytes) (omega arith),
    )
