-- ===== src/TimerScheduler/Places.antt =====
-- Where a timer of code/TimerScheduler/TimerScheduler.cpp is: in the heap, with the worker, with the
-- executor, or running.
use unix_notes.Prelude.{
  pick, ℕ, zero, suc, ◌+◌, ◌<◌, ◌≤◌, ◌≡◌, refl, Bool, true, false, List, [], ◌∷◌, ◌++◌, Option,
  none, some, arith, throws, invalid_argument, length, size_limit, ◌==◌, leb, if◌then◌else◌, ℤ, pos,
  negsuc, Bool-cases, inl, inr,
}
use unix_notes.TimerScheduler.State
use unix_notes.TimerScheduler.State.{Shared, TimerTask, States, assign, take_due}
use unix_notes.TimerScheduler.System
use unix_notes.TimerScheduler.Ids.{step-Grows}
use unix_notes.TimerScheduler.System.{
  System, Event, Step, step, after, run, enter_picked, leave_picked, destroy_picked, drop_step,
  collect_step, dispatch_step, posted_step, release_step, finish_step,
}

module _ {C : Type 0} (id : ℕ) where
  abbrev pub one : TimerTask C → ℕ
  one task = if task.id == id then 1 else 0

  -- How many of the entries are the timer's.
  abbrev pub entries : List (TimerTask C) → ℕ
  entries [] = 0
  entries (task ∷ tasks) = one task + entries tasks

  -- In how many places the timer is.
  abbrev pub places : System C → ℕ
  places s =
      entries s.shared.tasks
      + (entries s.ready + (entries s.posting + (entries s.queued + entries s.running)))

  -- One while the id has not been given out.
  abbrev unborn : System C → ℕ
  unborn s = if leb s.shared.next_id id then 1 else 0

  abbrev total : System C → ℕ
  total s = places s + unborn s

  entries-append : (xs ys : List (TimerTask C)) → entries (xs ++ ys) ≡ entries xs + entries ys
  entries-append [] ys = omega arith
  entries-append (x ∷ xs) ys = omega (arith, entries-append xs ys)

  entries-push :
      (task : TimerTask C) (xs : List (TimerTask C))
      → entries (State.push task xs) ≡ one task + entries xs
  unfolding State.push
  entries-push task [] = refl
  entries-push task (x ∷ xs) = ground (arith, entries-push task xs)

  entries-collect :
      (now : ℕ) (tasks : List (TimerTask C)) (states : States)
      → let (left, _, ready) = State.collect now tasks states in
        entries left + entries ready ≤ entries tasks
  unfolding State.collect
  entries-collect now [] states = omega arith
  entries-collect now (top ∷ tasks) states =
      ground (arith, entries-collect now tasks (take_due top.id states))

  entries-drop_cancelled :
      (tasks : List (TimerTask C)) (states : States)
      → entries (State.drop_cancelled tasks states).0 ≤ entries tasks
  unfolding State.drop_cancelled
  entries-drop_cancelled [] states = omega arith
  entries-drop_cancelled (top ∷ tasks) states =
      ground (arith, entries-drop_cancelled tasks (assign top.id none states))

  -- The entries of what is picked, and of what is left.
  abbrev Parted : List (TimerTask C) → Option (TimerTask C × List (TimerTask C)) → Type 0
  Parted xs none = Unit
  Parted xs (some (x, ys)) = entries xs ≡ one x + entries ys

  pick-cons :
      (x : TimerTask C) (xs : List (TimerTask C)) (p : Option (TimerTask C × List (TimerTask C)))
      → Parted xs p
      → Parted (x ∷ xs) (elim p [ none ↦ none | some (y, ys) ↦ some (y, x ∷ ys) ])
  pick-cons x xs none h = tt
  pick-cons x xs (some (y, ys)) h = omega arith

  pick-Parted : (n : ℕ) (xs : List (TimerTask C)) → Parted xs (pick n xs)
  pick-Parted n [] = tt
  pick-Parted zero (x ∷ xs) = refl
  pick-Parted (suc n) (x ∷ xs) = pick-cons x xs (pick n xs) (pick-Parted n xs)

  leave-entries :
      (now : ℕ) (task : TimerTask C) (s : Shared C)
      → (entries (State.leave now task s).0.tasks ≤ one task + entries s.tasks)
        × ((State.leave now task s).0.next_id ≡ s.next_id)
  unfolding State.leave
  leave-entries now task s = ground (
    arith,
    entries-push (record task { expiration = now + task.interval; repeated = true }) s.tasks,
  )

  add_timer-total :
      (expiration interval : ℕ) (repeated : Bool) (callback : C) (s : System C)
      → s.shared.next_id + 1 < size_limit
      → total
          (after s
            (System.calling s (State.add_timer expiration interval repeated callback s.shared))).0
        ≤ total s
  unfolding State.add_timer
  add_timer-total expiration interval repeated callback s room = ground (
    arith,
    entries-push
        (record {
          id = s.shared.next_id;
          expiration = expiration;
          interval = interval;
          repeated = repeated;
          callback = callback;
        })
        s.shared.tasks,
  )

  dispatch-total :
      (s : System C) (posting ready : List (TimerTask C))
      → let s' = record s { posting = posting; ready = ready } in
        total (after s' (dispatch_step s')).0 ≤ total s'
  unfolding dispatch_step State.dispatch
  dispatch-total s [] [] = ground arith
  dispatch-total s [] (task ∷ ready) = ground arith
  dispatch-total s (task ∷ posting) ready = ground arith

  posted-total :
      (accepted : Bool) (s : System C) (posting : List (TimerTask C))
      → let s' = record s { posting = posting } in
        total (after s' (posted_step accepted s')).0 ≤ total s'
  unfolding posted_step State.rejected
  posted-total accepted s [] = ground arith
  posted-total true s (task ∷ posting) = ground (arith, entries-append s.queued (task ∷ []))
  posted-total false s (task ∷ posting) = ground arith

  enter-total :
      (s : System C) (picked : Option (TimerTask C × List (TimerTask C)))
      → Parted s.queued picked
      → total (after s (enter_picked s picked)).0 ≤ total s
  unfolding enter_picked State.enter
  enter-total s none e = ground arith
  enter-total s (some (task, queued)) e = ground arith

  leave-total :
      (now : ℕ) (s : System C) (picked : Option (TimerTask C × List (TimerTask C)))
      → Parted s.running picked
      → total (after s (leave_picked now s picked)).0 ≤ total s
  unfolding leave_picked
  leave-total now s none e = ground arith
  leave-total now s (some (task, left)) e = ground (arith, leave-entries now task s.shared)

  destroy-total :
      (s : System C) (picked : Option (TimerTask C × List (TimerTask C)))
      → Parted s.queued picked
      → total (after s (destroy_picked s picked)).0 ≤ total s
  unfolding destroy_picked
  destroy-total s none e = ground arith
  destroy-total s (some (task, queued)) e = ground arith

  schedule_after-total :
      (now : ℕ) (delay : ℤ) (task : Option C) (s : System C)
      → s.shared.next_id + 1 < size_limit
      → total (after s (step (Event.schedule_after now delay task) s)).0 ≤ total s
  unfolding step State.schedule_after
  schedule_after-total now (negsuc n) task s room = omega arith
  schedule_after-total now (pos delay) none s room = omega arith
  schedule_after-total now (pos delay) (some callback) s room =
      add_timer-total (now + delay) 0 false callback s room

  schedule_every-total :
      (now : ℕ) (interval : ℤ) (task : Option C) (s : System C)
      → s.shared.next_id + 1 < size_limit
      → total (after s (step (Event.schedule_every now interval task) s)).0 ≤ total s
  unfolding step State.schedule_every
  schedule_every-total now (negsuc n) task s room = omega arith
  schedule_every-total now (pos interval) task s room = elim (Bool-cases (interval == 0)) [
    | inl none_given ↦ rw none_given (omega arith)
    | inr given ↦ rw given (every_given task)
  ]
    where
      every_given :
          (t : Option C)
          → total
              (after s (
                System.calling s (elim t [
                  | none ↦ throws invalid_argument
                  | some callback ↦ State.add_timer (now + interval) interval true callback s.shared
                ]))).0
            ≤ total s
      every_given none = omega arith
      every_given (some callback) = add_timer-total (now + interval) interval true callback s room

  step-total :
      (e : Event C) (s : System C)
      → s.shared.next_id + 1 < size_limit
      → total (after s (step e s)).0 ≤ total s
  unfolding step State.start State.finish State.finish_in_flight State.request_stop State.cancel
      drop_step collect_step release_step finish_step
  step-total Event.start s room = ground arith
  step-total Event.request_stop s room = ground arith
  step-total Event.finish s room = ground arith
  step-total Event.drop_cancelled s room =
      ground (arith, entries-drop_cancelled s.shared.tasks s.shared.states)
  step-total Event.dispatch s room = dispatch-total s s.posting s.ready
  step-total Event.release s room = ground arith
  step-total (Event.schedule_after now delay task) s room =
      schedule_after-total now delay task s room
  step-total (Event.schedule_every now interval task) s room =
      schedule_every-total now interval task s room
  step-total (Event.cancel key) s room = ground arith
  step-total (Event.enter place) s room =
      enter-total s (pick place s.queued) (pick-Parted place s.queued)
  step-total (Event.destroy place) s room =
      destroy-total s (pick place s.queued) (pick-Parted place s.queued)
  step-total (Event.collect now) s room =
      ground (arith, entries-collect now s.shared.tasks s.shared.states)
  step-total (Event.posted accepted) s room = posted-total accepted s s.posting
  step-total (Event.leave now place) s room =
      leave-total now s (pick place s.running) (pick-Parted place s.running)

  run-total :
      (events : List (Event C)) (s : System C)
      → s.shared.next_id + length events < size_limit
      → total (run events s).0 ≤ total s
  unfolding run
  run-total [] s room = omega arith
  run-total (e ∷ events) s room = omega (
    arith,
    run-total events (after s (step e s)).0 (omega (arith, step-Grows s e (omega arith))),
    step-total e s (omega arith),
  )

  -- After any events from the constructor on, that do not exhaust the 64-bit ids, a timer is in at
  -- most one place: once in the heap, or on its way to the executor, or queued there, or running. So
  -- no two runs of its callback overlap.
  pub timer_single :
      (events : List (Event C))
      → 1 + length events < size_limit
      → places (run events System.new).0 ≤ 1
  unfolding System.new State.new
  timer_single events room = ground (arith, run-total events System.new room)
