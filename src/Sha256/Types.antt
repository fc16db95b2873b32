-- ===== src/Sha256/Types.antt =====
-- What `types_hash` makes of the hashes of a pack of types.
use module_oriented_software.Common.{◌≡◌, refl, ◌∙◌, sym, List, [], ◌∷◌}
use module_oriented_software.Sha256.{Hash, fold_xor, types_hash}

fold_xor_start : (result : Hash) (hs : List Hash) → fold_xor result hs ≡ result
unfolding fold_xor
fold_xor_start result [] = refl
fold_xor_start result (h ∷ hs) = fold_xor_start result hs

-- Any two packs of types have the same hash, since the loop assigns nothing to its result.
types_hash_constant : (gs hs : List Hash) → types_hash gs ≡ types_hash hs
unfolding types_hash
types_hash_constant gs hs = fold_xor_start 0 gs ∙ sym (fold_xor_start 0 hs)
