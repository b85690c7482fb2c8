-- ===== src/ThreadPool/Pool/Conserve.antt =====
-- The tasks that a pool of code/ThreadPool has taken in, those that have started, and those that it
-- holds. A number `w` of each task stands for any way of counting tasks.
use unix_notes.Prelude.{
  ℕ, ◌+◌, ◌<◌, ◌≡◌, refl, ap, Bool, true, false, List, [], ◌∷◌, Option, some, arith, length, get_or,
  ltb, ltb→lt, ok, throws, blocks, undefined, Outcome, Agrees, if◌then◌else◌, ◌>>=◌, Bool-cases,
  inl, inr,
}
use native.Mathlib.Nat.{mod-lt}
use unix_notes.ThreadPool.Ring
use unix_notes.ThreadPool.Ring.Refine.{Holds, task_pop_refines, popped}
use unix_notes.ThreadPool.Local
use unix_notes.ThreadPool.Local.{behind, try_pop_owner}
use unix_notes.ThreadPool.Pool.{Pool, taken, victim, take_own, take_shared, steal_from, stop}
use unix_notes.ThreadPool.Pool.Threads.{Event, Step, step, run, resumed, starting}
use unix_notes.ThreadPool.Pool.Weigh.{weigh-append, Parted, pop_owner-Parted, steal-Parted}
use unix_notes.ThreadPool.Pool.Posts.{
  Shares, Balanced, Returned, still-Balanced, starting-Balanced, try_post-Balanced,
  post_wait-Balanced, post_for-Balanced, post-Balanced,
}

module _ {T : Type 0} (w : T → ℕ) where
  module _ (blank : T) (bound : ℕ) where
    take_shared-Balanced :
        (p : Pool T) (q : List T)
        → Shares w blank bound p q
        → Balanced w blank bound p q (take_shared blank p >>= starting p)
    unfolding take_shared
    take_shared-Balanced p q h = elim (Bool-cases (Ring.empty p.tasks)) [
      | inl none_left ↦ rw none_left (still-Balanced w blank bound p q h)
      | inr some_left ↦
          rw some_left (pops (Ring.pop blank p.tasks) q h some_left (task_pop_refines blank q h))
    ]
      where
        pops :
            (o : Outcome (T × Ring.Ring T)) (q : List T)
            → Shares w blank bound p q
            → Ring.empty p.tasks ≡ false
            → Agrees (λ s t. (s.0 ≡ t.0) × Holds blank bound s.1 t.1) o (popped blank q)
            → Balanced w blank bound p q
                (o >>= (λ r. ok (some (r.0, record p { tasks = r.1 }))) >>= starting p)
        pops o [] h e a = absurd (ground (arith, h.count, e))
        pops (ok r) (x ∷ q) h e (same, h') = (q, h', omega (arith, ap w same))
        pops (throws f) (x ∷ q) h e a = tt
        pops blocks (x ∷ q) h e a = tt
        pops undefined (x ∷ q) h e a = a

    -- One section of a worker on a queue, its own or another's.
    queue-Balanced :
        (i worker : ℕ) (p : Pool T) (q : List T) (o : Option (T × List T)) (b : Bool)
        → Shares w blank bound p q
        → ltb worker (length p.locals) ≡ b
        → (worker < length p.locals → i < length p.locals)
        → Parted w (get_or p.locals i []) o
        → Balanced w blank bound p q (if b then starting p (taken i o p) else blocks)
    queue-Balanced i worker p q o true h known at parted =
        starting-Balanced w blank bound i p q o h (at (ltb→lt _ _ known)) parted
    queue-Balanced i worker p q o false h known at parted = tt

    -- Each section of each thread keeps the balance, and is never undefined.
    step-Balanced :
        (e : Event T) (p : Pool T) (q : List T)
        → Shares w blank bound p q
        → Balanced w blank bound p q (step blank e p)
    unfolding step take_own steal_from stop
    step-Balanced (Event.try_post who task) p q h = try_post-Balanced w blank bound who task p q h
    step-Balanced (Event.post_wait who task) p q h = post_wait-Balanced w blank bound who task p q h
    step-Balanced (Event.post_for passed who task) p q h =
        post_for-Balanced w blank bound passed who task p q h
    step-Balanced (Event.post who task) p q h = post-Balanced w blank bound who task p q h
    step-Balanced (Event.take_own worker) p q h =
        queue-Balanced worker worker p q (try_pop_owner (get_or p.locals worker []))
          (ltb worker (length p.locals)) h refl (λ lt. lt)
          (pop_owner-Parted w (get_or p.locals worker []))
    step-Balanced (Event.take_shared worker) p q h = take_shared-Balanced p q h
    step-Balanced (Event.steal worker offset) p q h =
        queue-Balanced (victim worker offset p) worker p q
          (Local.try_steal (get_or p.locals (victim worker offset p) []))
          (ltb worker (length p.locals)) h refl
          (λ lt. mod-lt (worker + offset) {m = length p.locals} (omega arith))
          (steal-Parted w (get_or p.locals (victim worker offset p) []))
    step-Balanced Event.stop p q h = (q, h, refl)

    -- The run of the rest, after a first step.
    resumed-Balanced :
        (p : Pool T) (q : List T) (m : Step T) (rest : Pool T → Step T)
        → Shares w blank bound p q
        → Balanced w blank bound p q m
        → ((p' : Pool T) (q' : List T)
            → Shares w blank bound p' q'
            → Returned w blank bound p' q' (rest p'))
        → Returned w blank bound p q (resumed p m rest)
    resumed-Balanced p q (ok (p', ins, outs)) rest h (q', h', e) k =
        let ((p'', ins', outs'), e', (q'', h'', f)) = k p' q' h' in
        rw e' (
          _,
          refl,
          (q'', h'', omega (arith, e, f, weigh-append w ins ins', weigh-append w outs outs')),
        )
    resumed-Balanced p q (throws f) rest h b k = k p q h
    resumed-Balanced p q blocks rest h b k = k p q h
    resumed-Balanced p q undefined rest h b k = absurd b

    -- Over any interleaving of the sections of any threads, workers of this pool or of another one or none,
    -- on a pool whose ring holds a list of tasks, the pool does what C++ defines, and what it holds at the
    -- end, with what has gone to the queues of other pools and what has started, is what there was at
    -- first with the tasks that were accepted or that the caller ran.
    pub run_conserves :
        (events : List (Event T)) (p : Pool T) (q : List T)
        → Shares w blank bound p q
        → Returned w blank bound p q (run blank events p)
    unfolding run
    run_conserves [] p q h = (_, refl, (q, h, refl))
    run_conserves (e ∷ events) p q h =
        resumed-Balanced p q (step blank e p) (run blank events) h (step-Balanced e p q h)
          (run_conserves events)
