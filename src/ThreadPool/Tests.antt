-- ===== src/ThreadPool/Tests.antt =====
-- A pool of two workers and a shared queue of two places, whose ring goes round its end.
use unix_notes.Prelude.{
  ℕ, zero, suc, ◌+◌, ◌%◌, ◌<◌, ◌≡◌, refl, List, [], ◌∷◌, true, false, arith, get_or, Returns, ok,
}
use unix_notes.ThreadPool.Ring
use unix_notes.ThreadPool.Ring.{Ring}
use unix_notes.ThreadPool.Ring.Refine.{Holds}
use unix_notes.ThreadPool.Local
use unix_notes.ThreadPool.Local.{try_steal_back}
use unix_notes.ThreadPool.Pool
use unix_notes.ThreadPool.Pool.{Pool, abort, outside, own_worker, other_worker}
use unix_notes.ThreadPool.Pool.Steal.{is_some, try_steal_finds}
use unix_notes.ThreadPool.Pool.Threads.{Event, run, step}
use unix_notes.ThreadPool.Pool.Posts.{Returned}
use unix_notes.ThreadPool.Pool.Conserve.{run_conserves}

abbrev wrapped : Ring ℕ
wrapped = record { buffer = 0 ∷ 7 ∷ []; capacity = 2; head = 1; tail = 0; size = 1 }

wrapped-Holds : Holds 0 2 wrapped (7 ∷ [])
wrapped-Holds = record {
  word = omega arith;
  same_bound = refl;
  tail_at = refl;
  count = refl;
  window = record { storage = refl; head_in = omega arith; fits = omega arith; slot = slots };
}
  where
    slots :
        (i : ℕ) → i < 2 → get_or {A = ℕ} (0 ∷ 7 ∷ []) ((1 + i) % 2) 0 ≡ get_or {A = ℕ} (7 ∷ []) i 0
    slots zero h = refl
    slots (suc zero) h = refl
    slots (suc (suc i)) h = absurd (omega arith)

abbrev two_workers : Pool ℕ
two_workers = record {
  locals = [] ∷ (3 ∷ 4 ∷ []) ∷ [];
  elsewhere = [];
  tasks = wrapped;
  reject_policy = abort;
  stopping = false;
}

try_steal_finds_example :
    is_some (Pool.try_steal 0 two_workers) ≡ Pool.has_stealable_work 0 two_workers
try_steal_finds_example = try_steal_finds 0 two_workers

-- A worker posts, the other steals the oldest task, an outside thread posts until the queue is full, and a worker of
-- another pool posts.
abbrev busy : List (Event ℕ)
busy =
    Event.try_post (own_worker 0) 11
    ∷ Event.steal 0 1
    ∷ Event.post outside 12
    ∷ Event.try_post outside 13
    ∷ Event.take_shared 1
    ∷ Event.stop
    ∷ Event.take_own 0
    ∷ Event.post_wait outside 14
    ∷ Event.post other_worker 15
    ∷ []

run_conserves_example : Returned (λ t. t) 0 2 two_workers (7 ∷ []) (run 0 busy two_workers)
run_conserves_example = run_conserves (λ t. t) 0 2 busy two_workers (7 ∷ []) wrapped-Holds

abbrev drained : Pool ℕ
drained = record {
  locals = [] ∷ [] ∷ [];
  elsewhere = [];
  tasks = record { buffer = 0 ∷ 0 ∷ []; capacity = 2; head = 0; tail = 0; size = 0 };
  reject_policy = abort;
  stopping = true;
}

drained_returns : Pool.returns 0 (λ i. drained) drained ≡ ok true
unfolding Pool.returns Pool.has_any_work Pool.has_stealable_work Pool.stealable_rounds
    Pool.all_local_empty Pool.empty_rounds
drained_returns = refl

-- What the threads above put in and what they start.
busy_starts :
    Returns (run 0 busy two_workers) (λ r. (r.1 ≡ 11 ∷ 12 ∷ 15 ∷ []) × (r.2 ≡ 4 ∷ 7 ∷ 11 ∷ []))
unfolding run step Pool.try_post Pool.push_local Pool.push_elsewhere Pool.push_shared Pool.post
    Pool.post_wait Pool.take_own Pool.take_shared Pool.steal_from Pool.stop Ring.push Ring.pop
    Local.try_steal
busy_starts = (_, refl, (refl, refl))
