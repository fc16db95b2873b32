-- ===== src/Tests/Hashes.antt =====
-- The hash of utils/hash/sha256/sha256.cpp on concrete texts.
use module_oriented_software.Common.{arith, ◌≡◌, refl, [], ◌∷◌, ◌++◌, ◌/◌, ◌*◌, length}
use module_oriented_software.Sha256.Compute.{Bytes, zeros, compute, state_bytes, initial_state}
use module_oriented_software.Sha256.Compute.Blocks.{process}
use module_oriented_software.Sha256.Compute.Padding.{padding, compute-padding}
use module_oriented_software.Sha256.Literal.{sha256}
use module_oriented_software.Sha256.Literal.Agreement.{zeros-IsBytes, sha256-compute}
use module_oriented_software.Sha256.Compute.Hashes.{append-IsBytes}

abbrev abc : Bytes
abc = 97 ∷ 98 ∷ 99 ∷ []

-- A text whose length does not fit into the block of its last bytes.
abbrev sixty : Bytes
sixty = zeros 60

abbrev hash_of_abc : Bytes
hash_of_abc =
    186 ∷ 120 ∷ 22 ∷ 191 ∷ 143 ∷ 1 ∷ 207 ∷ 234 ∷ 65 ∷ 65 ∷ 64 ∷ 222 ∷ 93 ∷ 174 ∷ 34 ∷ 35 ∷ 176 ∷ 3
    ∷ 97 ∷ 163 ∷ 150 ∷ 23 ∷ 122 ∷ 156 ∷ 180 ∷ 16 ∷ 255 ∷ 97 ∷ 242 ∷ 0 ∷ 21 ∷ 173 ∷ []

-- The example of the standard.
compute-abc : compute abc ≡ hash_of_abc
unfolding compute
compute-abc = refl

compute-padding_example :
    (length (sixty ++ padding (length sixty)) ≡ length (sixty ++ padding (length sixty)) / 64 * 64)
    × (compute sixty
        ≡ state_bytes (
            process
              (length (sixty ++ padding (length sixty)) / 64)
              (sixty ++ padding (length sixty))
              initial_state))
compute-padding_example = compute-padding sixty

-- The message whose block is nearly full, as a literal.
sha256-compute_example : sha256 (sixty ++ abc) ≡ compute (sixty ++ abc)
sha256-compute_example =
    sha256-compute (sixty ++ abc)
      (append-IsBytes sixty abc (zeros-IsBytes 60) (omega arith, (omega arith, (omega arith, tt))))

sha256-abc : sha256 abc ≡ hash_of_abc
unfolding sha256
sha256-abc = refl
