-- ===== src/DomainServer/Copies.antt =====
-- What `std::strncpy` writes to the `sun_path` of env/inc/domain_tcp_sock.hpp and env/inc/domain_udp_sock.hpp.
use module_oriented_software.Common.{
  ℕ, zero, suc, ◌≡◌, refl, ap, ltb, true, false, none, some, List, [], ◌∷◌, length, take, arith,
}
use module_oriented_software.DomainServer.{UnixPath, c_str, padded, strncpy, write_all, copy_path}

length-padded : (n : ℕ) (path : UnixPath) → length (padded n path) ≡ n
unfolding padded
length-padded zero path = refl
length-padded (suc n) [] = ap suc (length-padded n [])
length-padded (suc n) (c ∷ path) = ap suc (length-padded n path)

pub length-strncpy : (n : ℕ) (path : UnixPath) → length (strncpy n path) ≡ n
unfolding strncpy
length-strncpy n path = length-padded n (c_str path)

take-padded : (n : ℕ) (path : UnixPath) → take (length (take n path)) (padded n path) ≡ take n path
unfolding padded
take-padded zero path = refl
take-padded (suc n) [] = refl
take-padded (suc n) (c ∷ path) = ap (◌∷◌ c) (take-padded n path)

-- The text in front of what is written, as far as it goes.
pub take-strncpy :
    (n : ℕ) (path : UnixPath)
    → take (length (take n (c_str path))) (strncpy n path) ≡ take n (c_str path)
unfolding strncpy
take-strncpy n path = take-padded n (c_str path)

write_all_beyond : (room : ℕ) (bs : List ℕ) → ltb room (length bs) ≡ true → write_all room bs ≡ none
unfolding write_all
write_all_beyond room [] h = ground arith
write_all_beyond zero (b ∷ bs) h = refl
write_all_beyond (suc room) (b ∷ bs) h =
    rw (write_all, write_all_beyond room bs (ground arith)) refl

write_all_within :
    (room : ℕ) (bs : List ℕ) → ltb room (length bs) ≡ false → write_all room bs ≡ some bs
unfolding write_all
write_all_within room [] h = refl
write_all_within zero (b ∷ bs) h = ground arith
write_all_within (suc room) (b ∷ bs) h =
    rw (write_all, write_all_within room bs (ground arith)) refl

-- A path of more than 108 bytes, zeros counted, is written behind the end of the array.
pub copy_path_beyond : (path : UnixPath) → ltb 108 (length path) ≡ true → copy_path path ≡ none
unfolding copy_path
copy_path_beyond path h =
    write_all_beyond 108 (strncpy (length path) path) (rw (length-strncpy (length path) path) h)

pub copy_path_within :
    (path : UnixPath)
    → ltb 108 (length path) ≡ false
    → copy_path path ≡ some (strncpy (length path) path)
unfolding copy_path
copy_path_within path h =
    write_all_within 108 (strncpy (length path) path) (rw (length-strncpy (length path) path) h)
