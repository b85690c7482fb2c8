-- ===== src/ThreadPool/Pool.antt =====
-- `ThreadPool` of code/ThreadPool/ThreadPool.cpp and ThreadPool.h: its critical sections as
-- functions. `blank` is an empty `Task`. The threads that enter the sections are in Pool/Threads.antt.
pub mod Steal
pub mod Threads
pub mod Weigh
pub mod Posts
pub mod Conserve
use unix_notes.Prelude.{
  ℕ, zero, suc, ◌+◌, ◌-◌, ◌%◌, Bool, true, false, not, ◌&&◌, ◌||◌, List, [], ◌∷◌, Option, none,
  some, length, get_or, set, replicate, ltb, ◌==◌, if◌then◌else◌, Outcome, ok, throws, blocks,
  ◌>>=◌, ◌>>◌, throw_if, wait, wait_until, runtime_error,
}
use unix_notes.ThreadPool.Ring
use unix_notes.ThreadPool.Ring.{Ring}
use unix_notes.ThreadPool.Local.{push_owner, try_pop_owner, is_empty}
use unix_notes.ThreadPool.Local

pub data SubmitResult : Type 0 where
  accepted queue_full timeout pool_stopping : SubmitResult

pub data RejectPolicy : Type 0 where
  abort caller_runs discard : RejectPolicy

-- What `tls_local` is for the thread that posts: null, the queue of a worker of this pool, by its index, or
-- that of a worker of another pool, since all pools share the variable.
pub data Caller : Type 0 where
  outside : Caller
  own_worker : ℕ → Caller
  other_worker : Caller

-- `elsewhere` are the tasks that workers of other pools have posted: they are in the queues of those.
pub record Pool (T : Type 0) : Type 0 where
  pub locals : List (List T)
  pub elsewhere : List T
  pub tasks : Ring T
  pub reject_policy : RejectPolicy
  pub stopping : Bool

module _ {T : Type 0} where
  unfoldable pub new : T → ℕ → ℕ → RejectPolicy → Outcome (Pool T)
  new blank worker_count queue_capacity reject_policy = do
    tasks ← Ring.new blank queue_capacity
    throw_if (worker_count == 0) runtime_error
    throw_if (queue_capacity == 0) runtime_error
    ok (record {
      locals = replicate worker_count [];
      elsewhere = [];
      tasks = tasks;
      reject_policy = reject_policy;
      stopping = false;
    })

  -- `tls_local->PushOwner(std::move(task))`
  unfoldable pub push_local : ℕ → T → Pool T → Pool T
  push_local worker task p = record p {
    locals = set p.locals worker (push_owner task (get_or p.locals worker []));
  }

  -- The same where `tls_local` is a queue of another pool.
  unfoldable pub push_elsewhere : T → Pool T → Pool T
  push_elsewhere task p = record p { elsewhere = push_owner task p.elsewhere }

  -- `tasks.push(std::move(task))`
  unfoldable pub push_shared : T → Pool T → Outcome (Pool T × SubmitResult)
  push_shared task p = do tasks ← Ring.push task p.tasks; ok (record p { tasks = tasks }, accepted)

  unfoldable pub try_post : Caller → T → Pool T → Outcome (Pool T × SubmitResult)
  unfolding push_local push_elsewhere push_shared
  try_post (own_worker worker) task p = ok (push_local worker task p, accepted)
  try_post other_worker task p = ok (push_elsewhere task p, accepted)
  try_post outside task p =
      if p.stopping
      then ok (p, pool_stopping)
      else if Ring.full p.tasks
      then ok (p, queue_full)
      else push_shared task p

  unfoldable pub post_wait : Caller → T → Pool T → Outcome (Pool T × SubmitResult)
  unfolding push_local push_elsewhere push_shared
  post_wait (own_worker worker) task p = ok (push_local worker task p, accepted)
  post_wait other_worker task p = ok (push_elsewhere task p, accepted)
  post_wait outside task p = do
    wait (p.stopping || not (Ring.full p.tasks))
    throw_if p.stopping runtime_error
    push_shared task p

  unfoldable pub post_for : Bool → Caller → T → Pool T → Outcome (Pool T × SubmitResult)
  unfolding push_local push_elsewhere push_shared
  post_for deadline_passed (own_worker worker) task p = ok (push_local worker task p, accepted)
  post_for deadline_passed other_worker task p = ok (push_elsewhere task p, accepted)
  post_for deadline_passed outside task p = do
    ready ← wait_until deadline_passed (p.stopping || not (Ring.full p.tasks))
    (if p.stopping
        then ok (p, pool_stopping)
        else if not ready
        then ok (p, timeout)
        else push_shared task p)

  -- On a full queue: what the policy says, and the task if the caller is to run it.
  abbrev pub full_queue : RejectPolicy → T → Pool T → Outcome (Pool T × SubmitResult × List T)
  full_queue abort task p = throws runtime_error
  full_queue discard task p = ok (p, queue_full, [])
  full_queue caller_runs task p = ok (p, queue_full, task ∷ [])

  unfoldable pub post : Caller → T → Pool T → Outcome (Pool T × SubmitResult × List T)
  unfolding push_local push_elsewhere push_shared
  post (own_worker worker) task p = ok (push_local worker task p, accepted, [])
  post other_worker task p = ok (push_elsewhere task p, accepted, [])
  post outside task p = do
    throw_if p.stopping runtime_error
    (if Ring.full p.tasks
        then full_queue p.reject_policy task p
        else push_shared task p >>= λ r. ok (r.0, r.1, []))

  -- A worker's own queue after a task has been taken from it.
  abbrev pub taken : ℕ → Option (T × List T) → Pool T → Option (T × Pool T)
  taken queue none p = none
  taken queue (some (task, rest)) p = some (task, record p { locals = set p.locals queue rest })

  -- `tls_local->TryPopOwner(task)`
  unfoldable pub take_own : ℕ → Pool T → Option (T × Pool T)
  take_own worker p = taken worker (try_pop_owner (get_or p.locals worker [])) p

  -- The worker's section on the shared queue.
  unfoldable pub take_shared : T → Pool T → Outcome (Option (T × Pool T))
  take_shared blank p =
      if Ring.empty p.tasks
      then ok none
      else (Ring.pop blank p.tasks >>= λ r. ok (some (r.0, record p { tasks = r.1 })))

  abbrev pub victim : ℕ → ℕ → Pool T → ℕ
  victim worker offset p = (worker + offset) % length p.locals

  -- `local_queues[victim]->TrySteal(task)`
  unfoldable pub steal_from : ℕ → ℕ → Pool T → Option (T × Pool T)
  steal_from worker offset p =
      taken (victim worker offset p) (Local.try_steal (get_or p.locals (victim worker offset p) []))
        p

  -- The loop of `TrySteal`, `n` more rounds.
  unfoldable pub steal_rounds : ℕ → ℕ → ℕ → Pool T → Option (T × Pool T)
  steal_rounds zero worker offset p = none
  steal_rounds (suc n) worker offset p = elim (steal_from worker offset p) [
    | some found ↦ some found
    | none ↦ steal_rounds n worker (offset + 1) p
  ]

  unfoldable pub try_steal : ℕ → Pool T → Option (T × Pool T)
  try_steal worker p = steal_rounds (length p.locals - 1) worker 1 p

  -- The loop of `HasStealableWork`, `n` more rounds.
  unfoldable pub stealable_rounds : ℕ → ℕ → ℕ → Pool T → Bool
  stealable_rounds zero worker offset p = false
  stealable_rounds (suc n) worker offset p =
      not (is_empty (get_or p.locals (victim worker offset p) []))
      || stealable_rounds n worker (offset + 1) p

  unfoldable pub has_stealable_work : ℕ → Pool T → Bool
  has_stealable_work worker p = stealable_rounds (length p.locals - 1) worker 1 p

  -- The loop of `AllLocalEmpty`, `n` more rounds. Each queue has a lock of its own: `looks i` is the pool
  -- when queue `i` is looked at.
  unfoldable pub empty_rounds : ℕ → ℕ → (ℕ → Pool T) → Bool
  empty_rounds zero i looks = true
  empty_rounds (suc n) i looks =
      is_empty (get_or (looks i).locals i []) && empty_rounds n (i + 1) looks

  unfoldable pub all_local_empty : (looks : ℕ → Pool T) → Pool T → Bool
  all_local_empty looks p = empty_rounds (length p.locals) 0 looks

  unfoldable pub has_any_work : ℕ → Pool T → Bool
  unfolding has_stealable_work
  has_any_work worker p =
      not (Ring.empty p.tasks)
      || not (is_empty (get_or p.locals worker []))
      || has_stealable_work worker p

  -- The worker's last section: whether its loop returns.
  unfoldable pub returns : ℕ → (looks : ℕ → Pool T) → Pool T → Outcome Bool
  unfolding has_any_work all_local_empty
  returns worker looks p = do
    wait (p.stopping || has_any_work worker p)
    ok (p.stopping && Ring.empty p.tasks && all_local_empty looks p)

  -- The destructor's section.
  unfoldable pub stop : Pool T → Pool T
  stop p = record p { stopping = true }
