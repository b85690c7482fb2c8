-- ===== src/ThreadPool/Local.antt =====
-- `LocalTaskQueue` of code/ThreadPool/LocalTaskQueue.h: the deque from front to back. Its owner uses
-- the front, a thief the back. The sections that take a task return it with what is left.
use unix_notes.Prelude.{◌≡◌, refl, ap, Bool, true, false, List, [], ◌∷◌, ◌++◌, Option, none, some}

module _ {T : Type 0} where
  abbrev pub push_owner : T → List T → List T
  push_owner task queue = task ∷ queue

  abbrev pub try_pop_owner : List T → Option (T × List T)
  try_pop_owner [] = none
  try_pop_owner (task ∷ queue) = some (task, queue)

  -- A list with one more element at the front of what is left.
  abbrev pub behind : T → Option (T × List T) → Option (T × List T)
  behind x none = none
  behind x (some (y, ys)) = some (y, x ∷ ys)

  unfoldable pub try_steal : List T → Option (T × List T)
  try_steal [] = none
  try_steal (task ∷ []) = some (task, [])
  try_steal (task ∷ next ∷ queue) = behind task (try_steal (next ∷ queue))

  abbrev pub is_empty : List T → Bool
  is_empty [] = true
  is_empty (task ∷ queue) = false

  -- A thief takes the task at the back and leaves the others as they are.
  pub try_steal_back :
      (task : T) (queue : List T) → try_steal (queue ++ (task ∷ [])) ≡ some (task, queue)
  unfolding try_steal
  try_steal_back task [] = refl
  try_steal_back task (x ∷ []) = refl
  try_steal_back task (x ∷ y ∷ queue) = ap (behind x) (try_steal_back task (y ∷ queue))
