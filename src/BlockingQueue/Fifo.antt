-- ===== src/BlockingQueue/Fifo.antt =====
-- What `RingBuffer` promises: a list of at most `bound` values, oldest first.
use unix_notes.Prelude.{
  ℕ, ◌-◌, List, [], ◌∷◌, ◌++◌, length, take, drop, min, ◌==◌, if◌then◌else◌, Outcome, ok, throws,
  invalid_argument, logic_error,
}

module _ {T : Type 0} where
  unfoldable pub new : ℕ → Outcome (List T)
  new bound = if bound == 0 then throws invalid_argument else ok []

  unfoldable pub emplace : ℕ → T → List T → Outcome (List T)
  emplace bound v q = if length q == bound then throws logic_error else ok (q ++ (v ∷ []))

  unfoldable pub front : List T → Outcome T
  front [] = throws logic_error
  front (x ∷ q) = ok x

  unfoldable pub pop_front : List T → Outcome (List T)
  pop_front [] = throws logic_error
  pop_front (x ∷ q) = ok q

  unfoldable pub pop : List T → Outcome (T × List T)
  pop [] = throws logic_error
  pop (x ∷ q) = ok (x, q)

  -- As many of the values as fit, and their number.
  unfoldable pub push_batch : ℕ → List T → List T → List T × ℕ
  push_batch bound vs q = (q ++ take (bound - length q) vs, min (length vs) (bound - length q))

  -- The oldest values, as many as there are up to `n`, and the rest.
  unfoldable pub pop_batch : ℕ → List T → List T × List T
  pop_batch n q = (take n q, drop n q)
