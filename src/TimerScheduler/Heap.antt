-- ===== src/TimerScheduler/Heap.antt =====
-- The heap of code/TimerScheduler/TimerScheduler.cpp over events from the constructor on.
use unix_notes.Prelude.{
  pick, ℕ, ◌+◌, ◌<◌, ◌≤◌, ◌≡◌, ◌≢◌, Bool, true, false, List, [], ◌∷◌, Option, none, some, arith,
  length, All, ==_refl, size_limit, pos, negsuc,
}
use unix_notes.TimerScheduler.State
use unix_notes.TimerScheduler.State.{Shared, TimerTask, States, assign}
use unix_notes.TimerScheduler.System
use unix_notes.TimerScheduler.System.{
  System, Event, Step, step, after, run, enter_picked, leave_picked, destroy_picked, drop_step,
  collect_step, dispatch_step, posted_step, release_step, finish_step,
}
use unix_notes.TimerScheduler.Places.{entries, timer_single}
use unix_notes.TimerScheduler.Due.{
  Ordered, Distinct, later, due, push-Ordered, collect-Ordered, collect-due,
}

module _ {C : Type 0} where
  drop-Ordered :
      (tasks : List (TimerTask C)) (states : States)
      → Ordered tasks
      → Ordered (State.drop_cancelled tasks states).0
  unfolding State.drop_cancelled
  drop-Ordered [] states o = tt
  drop-Ordered (top ∷ tasks) states (p, o) =
      ground (arith, drop-Ordered tasks (assign top.id none states) o)

  leave-Ordered :
      (now : ℕ) (task : TimerTask C) (s : Shared C)
      → Ordered s.tasks
      → Ordered (State.leave now task s).0.tasks
  unfolding State.leave
  leave-Ordered now task s o = ground (
    arith,
    push-Ordered (record task { expiration = now + task.interval; repeated = true }) s.tasks o,
  )

  add_timer-Ordered :
      (expiration interval : ℕ) (repeated : Bool) (callback : C) (s : System C)
      → Ordered s.shared.tasks
      → Ordered
          (after s (
            System.calling s
              (State.add_timer expiration interval repeated callback s.shared))).0.shared.tasks
  unfolding State.add_timer
  add_timer-Ordered expiration interval repeated callback s o = ground (
    arith,
    push-Ordered
        (record {
          id = s.shared.next_id;
          expiration = expiration;
          interval = interval;
          repeated = repeated;
          callback = callback;
        })
        s.shared.tasks o,
  )

  schedule_every-Ordered :
      (now interval : ℕ) (task : Option C) (s : System C)
      → Ordered s.shared.tasks
      → Ordered (after s (step (Event.schedule_every now (pos interval) task) s)).0.shared.tasks
  unfolding step State.schedule_every
  schedule_every-Ordered now interval none s o = ground arith
  schedule_every-Ordered now interval (some callback) s o =
      ground (arith, add_timer-Ordered (now + interval) interval true callback s o)

  -- The steps of the threads that do not touch the heap, or only add to it.
  dispatch-Ordered :
      (s : System C) (posting ready : List (TimerTask C))
      → Ordered s.shared.tasks
      → let s' = record s { posting = posting; ready = ready } in
        Ordered (after s' (dispatch_step s')).0.shared.tasks
  unfolding dispatch_step State.dispatch
  dispatch-Ordered s [] [] o = o
  dispatch-Ordered s [] (task ∷ ready) o = ground arith
  dispatch-Ordered s (task ∷ posting) ready o = o

  posted-Ordered :
      (accepted : Bool) (s : System C) (posting : List (TimerTask C))
      → Ordered s.shared.tasks
      → let s' = record s { posting = posting } in
        Ordered (after s' (posted_step accepted s')).0.shared.tasks
  unfolding posted_step State.rejected
  posted-Ordered accepted s [] o = o
  posted-Ordered true s (task ∷ posting) o = o
  posted-Ordered false s (task ∷ posting) o = o

  enter-Ordered :
      (s : System C) (picked : Option (TimerTask C × List (TimerTask C)))
      → Ordered s.shared.tasks
      → Ordered (after s (enter_picked s picked)).0.shared.tasks
  unfolding enter_picked State.enter
  enter-Ordered s none o = o
  enter-Ordered s (some (task, queued)) o = ground arith

  leave_picked-Ordered :
      (now : ℕ) (s : System C) (picked : Option (TimerTask C × List (TimerTask C)))
      → Ordered s.shared.tasks
      → Ordered (after s (leave_picked now s picked)).0.shared.tasks
  unfolding leave_picked
  leave_picked-Ordered now s none o = o
  leave_picked-Ordered now s (some (task, left)) o = leave-Ordered now task s.shared o

  destroy-Ordered :
      (s : System C) (picked : Option (TimerTask C × List (TimerTask C)))
      → Ordered s.shared.tasks
      → Ordered (after s (destroy_picked s picked)).0.shared.tasks
  unfolding destroy_picked
  destroy-Ordered s none o = o
  destroy-Ordered s (some (task, queued)) o = o

  step-Ordered :
      (e : Event C) (s : System C)
      → Ordered s.shared.tasks
      → Ordered (after s (step e s)).0.shared.tasks
  unfolding step State.start State.finish State.finish_in_flight State.request_stop State.cancel
      State.schedule_after State.schedule_every drop_step collect_step release_step finish_step
  step-Ordered Event.start s o = ground arith
  step-Ordered Event.request_stop s o = ground arith
  step-Ordered Event.finish s o = ground arith
  step-Ordered Event.drop_cancelled s o =
      ground (arith, drop-Ordered s.shared.tasks s.shared.states o)
  step-Ordered Event.dispatch s o = dispatch-Ordered s s.posting s.ready o
  step-Ordered Event.release s o = ground arith
  step-Ordered (Event.schedule_after now (negsuc n) task) s o = o
  step-Ordered (Event.schedule_after now (pos n) none) s o = o
  step-Ordered (Event.schedule_after now (pos n) (some callback)) s o =
      add_timer-Ordered (now + n) 0 false callback s o
  step-Ordered (Event.schedule_every now (negsuc n) task) s o = o
  step-Ordered (Event.schedule_every now (pos n) task) s o = schedule_every-Ordered now n task s o
  step-Ordered (Event.cancel key) s o = ground arith
  step-Ordered (Event.enter place) s o = enter-Ordered s (pick place s.queued) o
  step-Ordered (Event.destroy place) s o = destroy-Ordered s (pick place s.queued) o
  step-Ordered (Event.collect now) s o =
      ground (arith, collect-Ordered now s.shared.tasks s.shared.states o)
  step-Ordered (Event.posted accepted) s o = posted-Ordered accepted s s.posting o
  step-Ordered (Event.leave now place) s o = leave_picked-Ordered now s (pick place s.running) o

  run-Ordered :
      (events : List (Event C)) (s : System C)
      → Ordered s.shared.tasks
      → Ordered (run events s).0.shared.tasks
  unfolding run
  run-Ordered [] s o = o
  run-Ordered (e ∷ events) s o = run-Ordered events _ (step-Ordered e s o)

  -- One entry of each timer at most, so none is there twice.
  entries-none :
      (id : ℕ) (tasks : List (TimerTask C)) → entries id tasks ≡ 0 → All (λ u. u.id ≢ id) tasks
  entries-none id [] h = tt
  entries-none id (task ∷ tasks) h =
      ((λ e. ground (arith, e)), entries-none id tasks (ground arith))

  single-Distinct :
      (tasks : List (TimerTask C)) → ((id : ℕ) → entries id tasks ≤ 1) → Distinct tasks
  single-Distinct [] h = tt
  single-Distinct (task ∷ tasks) h = (
    entries-none task.id tasks (ground (arith, h task.id, ==_refl task.id)),
    single-Distinct tasks λ id. omega (arith, h id),
  )

  -- Whatever has happened since the constructor, in events that do not exhaust the 64-bit ids: the
  -- worker's loop at the time `now` leaves in the heap just the timers that are due later, and takes
  -- just those that are due and pending, by their times and then their ids.
  pub collect_reachable :
      (events : List (Event C)) (now : ℕ)
      → 1 + length events < size_limit
      → let s = (run events System.new).0.shared in
        let (left, _, ready) = State.collect now s.tasks s.states in
        Ordered s.tasks × (left ≡ later now s.tasks) × (ready ≡ due now s.states s.tasks)
  unfolding System.new State.new
  collect_reachable events now room =
      let s = (run events System.new).0.shared in
      let ordered = run-Ordered events System.new tt in
      let (left, ready) =
        collect-due now s.tasks s.states ordered
          (single-Distinct s.tasks λ id. omega (arith, timer_single id events room)) in
      (ordered, left, ready)
