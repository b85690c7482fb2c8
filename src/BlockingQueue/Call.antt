-- ===== src/BlockingQueue/Call.antt =====
-- What a caller of `BlockingQueue` asks for and gets back, and how threads are woken.
use unix_notes.Prelude.{ℕ, List, [], ◌∷◌, Bool, true, Option, some, take}

-- `notify_one` or `notify_all` on one of the two condition variables.
pub data Signal : Type 0 where
  not_empty_one not_full_one not_empty_all not_full_all : Signal

-- The member functions that change the queue. `timed_out` says whether the deadline has passed when
-- the predicate is looked at. A batch pop gives the length of its output span.
pub data Call (T : Type 0) : Type 0 where
  push emplace try_push try_emplace : T → Call T
  push_for emplace_for : (timed_out : Bool) → T → Call T
  pop try_pop : Call T
  pop_for : (timed_out : Bool) → Call T
  push_batch : List T → Call T
  pop_batch : ℕ → Call T
  close : Call T

-- A `bool` result, the value that a pop stored (none if it returned false), the number that
-- `push_batch` returned, what `pop_batch` wrote, no result; or the thread is still waiting.
pub data Reply (T : Type 0) : Type 0 where
  flag : Bool → Reply T
  value : Option T → Reply T
  count : ℕ → Reply T
  values : List T → Reply T
  nothing waiting : Reply T

module _ {T : Type 0} where
  -- The values that a call put into the queue.
  abbrev pub accepted : Call T → Reply T → List T
  accepted (push v) (flag true) = v ∷ []
  accepted (emplace v) (flag true) = v ∷ []
  accepted (try_push v) (flag true) = v ∷ []
  accepted (try_emplace v) (flag true) = v ∷ []
  accepted (push_for t v) (flag true) = v ∷ []
  accepted (emplace_for t v) (flag true) = v ∷ []
  accepted (push_batch vs) (count n) = take n vs
  accepted _ _ = []

  -- The values that a call took out of the queue.
  abbrev pub delivered : Reply T → List T
  delivered (value (some v)) = v ∷ []
  delivered (values vs) = vs
  delivered _ = []
