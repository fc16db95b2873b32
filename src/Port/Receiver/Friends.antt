-- ===== src/Port/Receiver/Friends.antt =====
-- Which ports a receiver takes for its friends.
use module_oriented_software.Common.{ℕ, ◌≡◌, false, arith}
use module_oriented_software.Port.Receiver.{is_friend, is_friend_of}

-- No type of port is a friend of a receiver, not even the senders that the list names: the loop gives up
-- at the first name that differs, and the two names differ.
is_friend_never : (type : ℕ) → is_friend type ≡ false
unfolding is_friend is_friend_of
is_friend_never type = ground arith
