-- ===== src/ThreadPool/Pool/Posts.antt =====
-- The posts of code/ThreadPool/ThreadPool.cpp and what a pool holds.
use unix_notes.Prelude.{
  ℕ, ◌+◌, ◌<◌, ◌≡◌, refl, Bool, true, false, not, List, [], ◌∷◌, ◌++◌, Option, none, some, arith,
  length, get_or, ltb, ltb→lt, ok, throws, blocks, undefined, Outcome, Agrees, Returns,
  if◌then◌else◌, ◌>>=◌, wait_until, Bool-cases, inl, inr,
}
use unix_notes.ThreadPool.Ring
use unix_notes.ThreadPool.Ring.Refine.{Holds, task_push_refines, pushed}
use unix_notes.ThreadPool.Pool.{
  Pool, Caller, outside, own_worker, other_worker, push_elsewhere, taken, push_local, push_shared,
  try_post, post_wait, post_for, post, accepted, timeout, RejectPolicy, abort, discard, caller_runs,
  full_queue,
}
use unix_notes.ThreadPool.Pool.Threads.{Event, Step, step, starting, taken_in, posting_or_running}
use unix_notes.ThreadPool.Pool.Weigh.{weigh, weigh_all, weigh-append, weigh_all-set, Parted}

module _ {T : Type 0} (w : T → ℕ) where
  module _ (blank : T) (bound : ℕ) where
    -- The pool holds `q` in the shared queue.
    abbrev pub Shares : Pool T → List T → Type 0
    Shares p q = Holds blank bound p.tasks q

    -- What is in the queues of the pool, or has gone to those of other pools.
    abbrev pub held : Pool T → List T → ℕ
    held p q = weigh_all w p.locals + weigh w q + weigh w p.elsewhere

    -- The pool, with what has started, balances what it held before and has taken in; if the step
    -- does not end with a pool it is because it throws or waits.
    abbrev pub Balanced : Pool T → List T → Step T → Type 0
    Balanced p q (ok (p', ins, outs)) =
        (q' : List T) × Shares p' q' × (held p' q' + weigh w outs ≡ held p q + weigh w ins)
    Balanced p q (throws e) = Unit
    Balanced p q blocks = Unit
    Balanced p q undefined = ⊥

    -- The same of a run, which always ends with a pool.
    abbrev pub Returned : Pool T → List T → Step T → Type 0
    Returned p q o =
        Returns o
          λ r. (q' : List T) × Shares r.0 q' × (held r.0 q' + weigh w r.2 ≡ held p q + weigh w r.1)

    push_local-held :
        (worker : ℕ) (task : T) (p : Pool T) (q : List T)
        → worker < length p.locals
        → held (push_local worker task p) q ≡ held p q + w task
    unfolding push_local
    push_local-held worker task p q h =
        omega (arith, weigh_all-set w p.locals worker (task ∷ get_or p.locals worker []) h)

    -- A push on the shared queue when it is not full.
    push_shared-ok :
        (task : T) (p : Pool T) (q : List T)
        → Shares p q
        → Ring.full p.tasks ≡ false
        → (p' : Pool T) × (push_shared task p ≡ ok (p', accepted))
          × Shares p' (q ++ (task ∷ []))
          × (p'.locals ≡ p.locals)
          × (p'.elsewhere ≡ p.elsewhere)
    unfolding push_shared
    push_shared-ok task p q h room =
        let (r, e, h') =
          shared_cases (Ring.push task p.tasks) q task room h (task_push_refines blank task h) in
        rw e (_, refl, h', refl, refl)
      where
        shared_cases :
            (o : Outcome (Ring.Ring T)) (q : List T) (task : T)
            → Ring.full p.tasks ≡ false
            → Shares p q
            → Agrees (Holds blank bound) o (pushed blank bound task q)
            → (r : Ring.Ring T) × (o ≡ ok r) × Holds blank bound r (q ++ (task ∷ []))
        shared_cases (ok r) q task room h a = (r, refl, ground (arith, h.count, h.same_bound))
        shared_cases (throws e) q task room h a = ground (arith, h.count, h.same_bound)
        shared_cases blocks q task room h a = ground (arith, h.count, h.same_bound)
        shared_cases undefined q task room h a = ground (arith, h.count, h.same_bound)

    pub starting-Balanced :
        (i : ℕ) (p : Pool T) (q : List T) (o : Option (T × List T))
        → Shares p q
        → i < length p.locals
        → Parted w (get_or p.locals i []) o
        → Balanced p q (starting p (taken i o p))
    starting-Balanced i p q none h lt parted = (q, h, refl)
    starting-Balanced i p q (some (x, rest)) h lt parted =
        (q, h, omega (arith, weigh_all-set w p.locals i rest lt))

    -- Each way of posting, by the caller's kind.
    posts-Balanced :
        (task : T) (p : Pool T) (q : List T)
        → Shares p q
        → Ring.full p.tasks ≡ false
        → Balanced p q (push_shared task p >>= λ r. ok (r.0, taken_in r.1 task, []))
    posts-Balanced task p q h room =
        let (p', e, h', same, away) = push_shared-ok task p q h room in
        rw e (q ++ (task ∷ []), h', rw (same, away) (omega (arith, weigh-append w q (task ∷ []))))

    local-Balanced :
        (worker : ℕ) (task : T) (p : Pool T) (q : List T)
        → Shares p q
        → ltb worker (length p.locals) ≡ true
        → Balanced p q (ok (push_local worker task p, task ∷ [], []))
    unfolding push_local
    local-Balanced worker task p q h lt =
        (q, h, omega (arith, push_local-held worker task p q (ltb→lt _ _ lt)))

    elsewhere-Balanced :
        (task : T) (p : Pool T) (q : List T)
        → Shares p q
        → Balanced p q (ok (push_elsewhere task p, task ∷ [], []))
    unfolding push_elsewhere
    elsewhere-Balanced task p q h = (q, h, omega arith)

    -- A step that takes nothing in and starts nothing.
    pub still-Balanced : (p : Pool T) (q : List T) → Shares p q → Balanced p q (ok (p, [], []))
    still-Balanced p q h = (q, h, refl)

    runs_posted :
        (task : T) (p : Pool T) (q : List T)
        → Shares p q
        → Ring.full p.tasks ≡ false
        → Balanced p q (posting_or_running task (push_shared task p >>= λ r. ok (r.0, r.1, [])))
    runs_posted task p q h room =
        let (p', e, h', same, away) = push_shared-ok task p q h room in
        rw e (q ++ (task ∷ []), h', rw (same, away) (omega (arith, weigh-append w q (task ∷ []))))

    try_post-other :
        (task : T) (p : Pool T) (q : List T) (over : Bool)
        → Shares p q
        → let p' = record p { stopping = over } in
          Balanced p' q (step blank (Event.try_post outside task) p')
    unfolding step try_post push_shared
    try_post-other task p q true h = still-Balanced (record p { stopping = true }) q h
    try_post-other task p q false h =
        let p' = record p { stopping = false } in
        elim (Bool-cases (Ring.full p.tasks)) [
          | inl no_room ↦ rw no_room (still-Balanced p' q h)
          | inr room ↦ rw room (posts-Balanced task p' q h room)
        ]

    pub try_post-Balanced :
        (who : Caller) (task : T) (p : Pool T) (q : List T)
        → Shares p q
        → Balanced p q (step blank (Event.try_post who task) p)
    unfolding step try_post
    try_post-Balanced (own_worker worker) task p q h =
        elim (Bool-cases (ltb worker (length p.locals))) [
          | inl known ↦ rw known (local-Balanced worker task p q h known)
          | inr unknown ↦ rw unknown tt
        ]
    try_post-Balanced other_worker task p q h = elsewhere-Balanced task p q h
    try_post-Balanced outside task p q h = try_post-other task p q p.stopping h

    post_wait-other :
        (task : T) (p : Pool T) (q : List T) (over : Bool)
        → Shares p q
        → let p' = record p { stopping = over } in
          Balanced p' q (step blank (Event.post_wait outside task) p')
    unfolding step post_wait push_shared
    post_wait-other task p q true h = tt
    post_wait-other task p q false h =
        let p' = record p { stopping = false } in
        elim (Bool-cases (Ring.full p.tasks)) [
          | inl no_room ↦ rw no_room tt
          | inr room ↦ rw room (posts-Balanced task p' q h room)
        ]

    pub post_wait-Balanced :
        (who : Caller) (task : T) (p : Pool T) (q : List T)
        → Shares p q
        → Balanced p q (step blank (Event.post_wait who task) p)
    unfolding step post_wait
    post_wait-Balanced (own_worker worker) task p q h =
        elim (Bool-cases (ltb worker (length p.locals))) [
          | inl known ↦ rw known (local-Balanced worker task p q h known)
          | inr unknown ↦ rw unknown tt
        ]
    post_wait-Balanced other_worker task p q h = elsewhere-Balanced task p q h
    post_wait-Balanced outside task p q h = post_wait-other task p q p.stopping h

    post_for-other :
        (passed : Bool) (task : T) (p : Pool T) (q : List T) (over : Bool)
        → Shares p q
        → let p' = record p { stopping = over } in
          Balanced p' q (step blank (Event.post_for passed outside task) p')
    unfolding step post_for push_shared
    post_for-other passed task p q true h = still-Balanced (record p { stopping = true }) q h
    post_for-other passed task p q false h =
        let p' = record p { stopping = false } in
        elim (Bool-cases (Ring.full p.tasks)) [
          | inl no_room ↦ rw no_room (timed passed)
          | inr room ↦ rw room (posts-Balanced task p' q h room)
        ]
      where
        timed :
            (b : Bool)
            → Balanced
                (record p { stopping = false })
                q
                (wait_until b false
                  >>= (λ ready.
                      if not ready
                      then ok (record p { stopping = false }, timeout)
                      else push_shared task (record p { stopping = false }))
                  >>= λ r. ok (r.0, taken_in r.1 task, []))
        timed true = still-Balanced (record p { stopping = false }) q h
        timed false = tt

    pub post_for-Balanced :
        (passed : Bool) (who : Caller) (task : T) (p : Pool T) (q : List T)
        → Shares p q
        → Balanced p q (step blank (Event.post_for passed who task) p)
    unfolding step post_for
    post_for-Balanced passed (own_worker worker) task p q h =
        elim (Bool-cases (ltb worker (length p.locals))) [
          | inl known ↦ rw known (local-Balanced worker task p q h known)
          | inr unknown ↦ rw unknown tt
        ]
    post_for-Balanced passed other_worker task p q h = elsewhere-Balanced task p q h
    post_for-Balanced passed outside task p q h = post_for-other passed task p q p.stopping h

    post-other :
        (task : T) (p : Pool T) (q : List T) (over : Bool)
        → Shares p q
        → let p' = record p { stopping = over } in
          Balanced p' q (step blank (Event.post outside task) p')
    unfolding step post push_shared
    post-other task p q true h = tt
    post-other task p q false h =
        let p' = record p { stopping = false } in
        elim (Bool-cases (Ring.full p.tasks)) [
          | inl no_room ↦ rw no_room (policies p.reject_policy)
          | inr room ↦ rw room (runs_posted task p' q h room)
        ]
      where
        policies :
            (policy : RejectPolicy)
            → Balanced
                (record p { stopping = false })
                q
                (posting_or_running task (full_queue policy task (record p { stopping = false })))
        policies abort = tt
        policies discard = still-Balanced (record p { stopping = false }) q h
        policies caller_runs = (q, h, refl)

    pub post-Balanced :
        (who : Caller) (task : T) (p : Pool T) (q : List T)
        → Shares p q
        → Balanced p q (step blank (Event.post who task) p)
    unfolding step post
    post-Balanced (own_worker worker) task p q h =
        elim (Bool-cases (ltb worker (length p.locals))) [
          | inl known ↦ rw known (local-Balanced worker task p q h known)
          | inr unknown ↦ rw unknown tt
        ]
    post-Balanced other_worker task p q h = elsewhere-Balanced task p q h
    post-Balanced outside task p q h = post-other task p q p.stopping h
