-- ===== src/Sha256.antt =====
-- utils/hash/sha256/sha256.hpp. A `sha256_hash_type` of 32 bytes is read as the number that they
-- write, so that `^`, which works byte by byte, is the exclusive or of the two numbers.
pub mod Types
pub mod Compute
pub mod Literal
use module_oriented_software.Common.{ℕ, List, [], ◌∷◌, bit_xor}

abbrev pub Hash : Type 0
Hash = ℕ

abbrev pub xor_hash : Hash → Hash → Hash
xor_hash a b = bit_xor a b

-- `operator^=` is a method of `*this` that returns the exclusive or and assigns nothing: the new
-- value of the left side, and the value of the expression.
unfoldable pub xor_assign : Hash → Hash → Hash × Hash
xor_assign this other = (this, xor_hash this other)

-- The loop `for (i...) result ^= hashes[i]` of `types_hash`.
unfoldable pub fold_xor : Hash → List Hash → Hash
unfolding xor_assign
fold_xor result [] = result
fold_xor result (h ∷ hs) = fold_xor (xor_assign result h).0 hs

-- `types_hash<Args...>`, given the hashes of the names of the types.
unfoldable pub types_hash : List Hash → Hash
unfolding fold_xor
types_hash hashes = fold_xor 0 hashes
