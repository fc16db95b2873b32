-- ===== src/Aes.antt =====
-- env/inc/aes.hpp: a text is given to the cipher of OpenSSL in one update and one end. What the cipher does is given, for a key; 0
-- from any of its functions throws, which is `none` here.
use module_oriented_software.Common.{Bool, Option, none, some, ℕ, List, ◌++◌, if◌then◌else◌}

-- The functions of one direction: the context that is made, the start with the key, and what the update and the end write for a
-- text, which is a pointer.
pub record Evp : Type 0 where
  pub context : Bool
  pub init : Bool
  pub update : Option (List ℕ) → Option (List ℕ)
  pub final : Option (List ℕ) → Option (List ℕ)

pub record Aes : Type 0 where
  pub encryption : Evp
  pub decryption : Evp

-- What the update and the end write, one behind the other.
unfoldable pub run_evp : Evp → Option (List ℕ) → Option (List ℕ)
run_evp e text =
    if e.context
    then (if e.init
        then (elim (e.update text) [
          | none ↦ none
          | some written ↦ elim (e.final text) [ none ↦ none | some rest ↦ some (written ++ rest) ]
        ])
        else none)
    else none

unfoldable pub encrypt : Aes → List ℕ → Option (List ℕ)
unfolding run_evp
encrypt a plaintext = run_evp a.encryption (some plaintext)

-- `decrypt`, which is given the null pointer after a failure.
unfoldable pub decrypt : Aes → Option (List ℕ) → Option (List ℕ)
unfolding run_evp
decrypt a ciphertext = run_evp a.decryption ciphertext
