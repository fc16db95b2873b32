-- ===== src/Port/Queue.antt =====
-- A bounded queue, oldest first: what a buffer of a port promises.
use module_oriented_software.Common.{ℕ, ltb, List, [], ◌∷◌, ◌++◌, if◌then◌else◌, length}

-- A call of a client of the queue, and what it sees.
pub data Call (D : Type 0) : Type 0 where
  put : D → Call D
  get : Call D

pub data Reply (D : Type 0) : Type 0 where
  accepted overflow empty : Reply D
  given : D → Reply D

module _ {D : Type 0} where
  unfoldable pub pop : List D → List D × Reply D
  pop [] = ([], empty)
  pop (x ∷ q) = (q, given x)

  unfoldable pub push : ℕ → D → List D → List D × Reply D
  push cap x q = if ltb (length q) cap then (q ++ x ∷ [], accepted) else (q, overflow)

  unfoldable pub run : ℕ → List (Call D) → List D → List (Reply D)
  run cap [] q = []
  run cap (put x ∷ cs) q = let (q', a) = push cap x q in a ∷ run cap cs q'
  run cap (get ∷ cs) q = let (q', a) = pop q in a ∷ run cap cs q'
