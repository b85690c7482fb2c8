-- ===== src/ThreadPool/Pool/Threads.antt =====
-- The threads around a pool: an event is one critical section of one of them, and a list of events
-- is an interleaving.
use unix_notes.Prelude.{
  ℕ, Bool, true, List, [], ◌∷◌, ◌++◌, Option, none, some, length, ltb, if◌then◌else◌, Outcome, ok,
  throws, blocks, undefined, ◌>>=◌,
}
use unix_notes.ThreadPool.Pool
use unix_notes.ThreadPool.Pool.{
  Pool, Caller, outside, own_worker, other_worker, SubmitResult, accepted,
}

-- `deadline_passed` is whether the time of `post_for` is over.
pub data Event (T : Type 0) : Type 0 where
  try_post post_wait post : Caller → T → Event T
  post_for : (deadline_passed : Bool) → Caller → T → Event T
  take_own take_shared : ℕ → Event T
  steal : (worker offset : ℕ) → Event T
  stop : Event T

-- The new pool, the tasks that it has taken in, and the tasks that start.
abbrev pub Step : Type 0 → Type 0
Step T = Outcome (Pool T × List T × List T)

module _ {T : Type 0} where
  abbrev pub taken_in : SubmitResult → T → List T
  taken_in accepted task = task ∷ []
  taken_in _ task = []

  -- A worker of this pool has a queue in it.
  abbrev pub is_known : Caller → Pool T → Bool
  is_known outside p = true
  is_known (own_worker worker) p = ltb worker (length p.locals)
  is_known other_worker p = true

  abbrev pub posting : T → Outcome (Pool T × SubmitResult) → Step T
  posting task m = m >>= λ r. ok (r.0, taken_in r.1 task, [])

  -- What the caller is to run counts as taken in and started.
  abbrev pub posting_or_running : T → Outcome (Pool T × SubmitResult × List T) → Step T
  posting_or_running task m = m >>= λ r. ok (r.0, taken_in r.1 task ++ r.2, r.2)

  abbrev pub starting : Pool T → Option (T × Pool T) → Step T
  starting p none = ok (p, [], [])
  starting p (some (task, p')) = ok (p', [], task ∷ [])

  unfoldable pub step : T → Event T → Pool T → Step T
  step blank (Event.try_post who task) p =
      if is_known who p then posting task (Pool.try_post who task p) else blocks
  step blank (Event.post_wait who task) p =
      if is_known who p then posting task (Pool.post_wait who task p) else blocks
  step blank (Event.post_for passed who task) p =
      if is_known who p then posting task (Pool.post_for passed who task p) else blocks
  step blank (Event.post who task) p =
      if is_known who p then posting_or_running task (Pool.post who task p) else blocks
  step blank (Event.take_own worker) p =
      if is_known (own_worker worker) p then starting p (Pool.take_own worker p) else blocks
  step blank (Event.take_shared worker) p = Pool.take_shared blank p >>= starting p
  step blank (Event.steal worker offset) p =
      if is_known (own_worker worker) p
      then starting p (Pool.steal_from worker offset p)
      else blocks
  step blank Event.stop p = ok (Pool.stop p, [], [])

  -- A call that throws or still waits leaves the pool as it is.
  abbrev pub resumed : Pool T → Step T → (Pool T → Step T) → Step T
  resumed p (ok (p', ins, outs)) rest = (rest p' >>= λ r. ok (r.0, ins ++ r.1, outs ++ r.2))
  resumed p (throws e) rest = rest p
  resumed p blocks rest = rest p
  resumed p undefined rest = undefined

  unfoldable pub run : T → List (Event T) → Pool T → Step T
  run blank [] p = ok (p, [], [])
  run blank (e ∷ events) p = resumed p (step blank e p) (run blank events)
