-- ===== src/TimerScheduler/System.antt =====
-- The threads around the shared state of a `TimerScheduler`: callers, the worker, and the threads of
-- the executor that run its wrappers. An event is one critical section, or a move of the executor;
-- any thread may be next, so every list of events is an interleaving. The worker may look at the
-- heap at any time, whatever its waits would do, and the executor may accept or refuse a wrapper,
-- run the wrappers it has in any order, and destroy one without running it.
use unix_notes.Prelude.{
  pick, ℕ, zero, suc, Bool, true, false, not, ◌&&◌, List, [], ◌∷◌, ◌++◌, Option, none, some, ◌==◌,
  if◌then◌else◌, Outcome, ok, blocks, ◌>>=◌, ℤ,
}
use unix_notes.TimerScheduler.State
use unix_notes.TimerScheduler.State.{Shared, TimerTask, is_running}

-- Where the timers are that have left the heap: `ready` the worker is about to check, `posting` it
-- is about to give to the executor, `queued` and `running` are the wrappers of the executor, and
-- `spent` are the wrappers that have ended while their `completion` is still alive.
pub record System (C : Type 0) : Type 0 where
  pub shared : Shared C
  pub ready : List (TimerTask C)
  pub posting : List (TimerTask C)
  pub queued : List (TimerTask C)
  pub running : List (TimerTask C)
  pub spent : ℕ

-- A wrapper is named by its place among those of its kind. `now` is what the clock says.
pub data Event (C : Type 0) : Type 0 where
  start request_stop finish drop_cancelled dispatch release : Event C
  schedule_after schedule_every : (now : ℕ) → ℤ → Option C → Event C
  cancel enter destroy : ℕ → Event C
  collect : (now : ℕ) → Event C
  posted : (accepted : Bool) → Event C
  leave : (now place : ℕ) → Event C

-- The new system and the timers whose callbacks start.
abbrev pub Step : Type 0 → Type 0
Step C = Outcome (System C × List (TimerTask C))

module _ {C : Type 0} where
  unfoldable pub new : System C
  new = record {
    shared = State.new;
    ready = [];
    posting = [];
    queued = [];
    running = [];
    spent = 0;
  }

  -- A step that starts no callback.
  abbrev pub quiet : System C → Step C
  quiet s = ok (s, [])

  -- The worker is between two rounds of its loop.
  abbrev pub idle : System C → Bool
  idle s = elim s.ready [ [] ↦ (elim s.posting [ [] ↦ true | _ ↦ false ]) | _ ↦ false ]

  unfoldable pub collect_step : ℕ → System C → Step C
  collect_step now s =
      if is_running s.shared.scheduler_state && idle s
      then (let (tasks, states, ready) = State.collect now s.shared.tasks s.shared.states in
          quiet (record s {
            shared = record s.shared { tasks = tasks; states = states };
            ready = ready;
          }))
      else blocks

  unfoldable pub drop_step : System C → Step C
  drop_step s =
      if is_running s.shared.scheduler_state && idle s
      then (let (tasks, states) = State.drop_cancelled s.shared.tasks s.shared.states in
          quiet (record s { shared = record s.shared { tasks = tasks; states = states } }))
      else blocks

  unfoldable pub dispatch_step : System C → Step C
  dispatch_step s = elim s.posting [
    | [] ↦ elim s.ready [
      | [] ↦ blocks
      | task ∷ tasks ↦
          let (shared, posts) = State.dispatch task.id s.shared in
          quiet (record s {
            shared = shared;
            ready = tasks;
            posting = (if posts then task ∷ [] else []);
          })
    ]
    | _ ↦ blocks
  ]

  -- `try_post` has returned. Where it throws, `result` should say that the wrapper was not accepted;
  -- the source leaves it unset.
  unfoldable pub posted_step : Bool → System C → Step C
  posted_step accepted s = elim s.posting [
    | [] ↦ blocks
    | task ∷ tasks ↦ quiet (
        if accepted
        then record s { posting = tasks; queued = s.queued ++ (task ∷ []) }
        else record s {
          shared = State.rejected task.id s.shared;
          posting = tasks;
          spent = suc s.spent;
        })
  ]

  -- The executor starts a wrapper that it has picked, of those that are queued.
  unfoldable pub enter_picked : System C → Option (TimerTask C × List (TimerTask C)) → Step C
  enter_picked s none = blocks
  enter_picked s (some (task, queued)) =
      let (shared, runs) = State.enter task.id s.shared in
      ok (
        if runs
        then (record s { shared = shared; queued = queued; running = task ∷ s.running }, task ∷ [])
        else (record s { shared = shared; queued = queued; spent = suc s.spent }, []))

  -- A callback is over, of those that are running.
  unfoldable pub leave_picked : ℕ → System C → Option (TimerTask C × List (TimerTask C)) → Step C
  leave_picked now s none = blocks
  leave_picked now s (some (task, running)) = quiet (record s {
    shared = (State.leave now task s.shared).0;
    running = running;
    spent = suc s.spent;
  })

  -- The executor destroys a wrapper that it has not run.
  unfoldable pub destroy_picked : System C → Option (TimerTask C × List (TimerTask C)) → Step C
  destroy_picked s none = blocks
  destroy_picked s (some (task, queued)) = quiet (record s { queued = queued; spent = suc s.spent })

  unfoldable pub release_step : System C → Step C
  release_step s = elim s.spent [
    | zero ↦ blocks
    | suc n ↦
        let (shared, _) = State.finish_in_flight s.shared in
        quiet (record s { shared = shared; spent = n })
  ]

  -- `wait` and `stop` by a thread that runs no callback: the worker has been joined, and the wait
  -- for `in_flight == 0` is over.
  unfoldable pub finish_step : System C → Step C
  finish_step s =
      if not (is_running s.shared.scheduler_state) && (idle s && s.shared.in_flight == 0)
      then quiet (record s { shared = State.finish s.shared })
      else blocks

  -- A call that returns its new state first.
  abbrev pub calling : System C → Outcome (Shared C × ℕ × Bool) → Step C
  calling s m = m >>= λ r. quiet (record s { shared = r.0 })

  unfoldable pub step : Event C → System C → Step C
  unfolding collect_step drop_step dispatch_step posted_step enter_picked leave_picked
      destroy_picked release_step finish_step
  step Event.start s = State.start s.shared >>= λ shared. quiet (record s { shared = shared })
  step Event.request_stop s = quiet (record s { shared = (State.request_stop s.shared).0 })
  step Event.finish s = finish_step s
  step Event.drop_cancelled s = drop_step s
  step Event.dispatch s = dispatch_step s
  step Event.release s = release_step s
  step (Event.schedule_after now delay task) s =
      calling s (State.schedule_after now delay task s.shared)
  step (Event.schedule_every now interval task) s =
      calling s (State.schedule_every now interval task s.shared)
  step (Event.cancel id) s = quiet (record s { shared = (State.cancel id s.shared).0 })
  step (Event.enter place) s = enter_picked s (pick place s.queued)
  step (Event.destroy place) s = destroy_picked s (pick place s.queued)
  step (Event.collect now) s = collect_step now s
  step (Event.posted accepted) s = posted_step accepted s
  step (Event.leave now place) s = leave_picked now s (pick place s.running)

  -- A call that throws, and an event that cannot happen now, leave the system as it is.
  abbrev pub after : System C → Step C → System C × List (TimerTask C)
  after s (ok r) = r
  after s _ = (s, [])

  -- The system after a list of events, and the timers whose callbacks have started, in order.
  unfoldable pub run : List (Event C) → System C → System C × List (TimerTask C)
  run [] s = (s, [])
  run (e ∷ es) s =
      let (s', started) = after s (step e s) in
      let (s'', later) = run es s' in (s'', started ++ later)
