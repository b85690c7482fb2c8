-- ===== src/TimerScheduler/Cancel.antt =====
-- `cancel` of code/TimerScheduler/TimerScheduler.cpp, and what the other sections do to the timer.
use unix_notes.Prelude.{
  pick, ℕ, suc, ◌+◌, ◌<◌, ◌≤◌, ◌≡◌, ◌≢◌, Bool, true, false, List, [], ◌∷◌, Option, none, some,
  arith, All, All-append, length, size_limit, ==_refl, Bool-cases, inl, inr,
}
use unix_notes.TimerScheduler.State
use unix_notes.TimerScheduler.State.{
  Shared, TimerTask, States, TimerState, pending, submitted, executing, cancelled, assign, emplace,
  cancel_pending, take_due,
}
use unix_notes.TimerScheduler.System.{
  System, Event, step, after, run, enter_picked, leave_picked, destroy_picked, drop_step,
  collect_step, release_step, finish_step,
}

-- A timer in this state never runs again.
abbrev pub gone : Option TimerState → Bool
gone none = true
gone (some cancelled) = true
gone (some _) = false

take_due-gone :
    (id key : ℕ) (states : States) → gone (states id) ≡ true → gone (take_due key states id) ≡ true
take_due-gone id key states h = ground arith

module _ {C : Type 0} (id : ℕ) where
  -- The timer has been given out and is gone.
  abbrev pub Gone : Shared C → Type 0
  Gone s = (gone (s.states id) ≡ true) × (id < s.next_id)

  -- It is gone still, and at most `n` ids have been given out.
  abbrev pub StillGone : ℕ → Shared C → Type 0
  StillGone n s = (gone (s.states id) ≡ true) × (id < s.next_id) × (s.next_id ≤ n)

  collect-gone :
      (now : ℕ) (tasks : List (TimerTask C)) (states : States)
      → gone (states id) ≡ true
      → gone ((State.collect now tasks states).1 id) ≡ true
  unfolding State.collect
  collect-gone now [] states h = h
  collect-gone now (top ∷ tasks) states h =
      ground
        (arith, collect-gone now tasks (take_due top.id states) (take_due-gone id top.id states h))

  drop_cancelled-gone :
      (tasks : List (TimerTask C)) (states : States)
      → gone (states id) ≡ true
      → gone ((State.drop_cancelled tasks states).1 id) ≡ true
  unfolding State.drop_cancelled
  drop_cancelled-gone [] states h = h
  drop_cancelled-gone (top ∷ tasks) states h =
      ground (arith, drop_cancelled-gone tasks (assign top.id none states))

  cancel-Gone : (key : ℕ) (s : Shared C) → Gone s → Gone (State.cancel key s).0
  unfolding State.cancel
  cancel-Gone key s (h, lt) = ground arith

  -- `cancel` of the timer itself.
  pub cancelled-Gone : (s : Shared C) → id < s.next_id → Gone (State.cancel id s).0
  unfolding State.cancel
  cancelled-Gone s lt = ground (arith, ==_refl id)

  request_stop-Gone : (s : Shared C) → Gone s → Gone (State.request_stop s).0
  unfolding State.request_stop
  request_stop-Gone s (h, lt) = ground arith

  dispatch-Gone : (key : ℕ) (s : Shared C) → Gone s → Gone (State.dispatch key s).0
  unfolding State.dispatch
  dispatch-Gone key s (h, lt) = ground arith

  enter-Gone : (key : ℕ) (s : Shared C) → Gone s → Gone (State.enter key s).0
  unfolding State.enter
  enter-Gone key s (h, lt) = ground arith

  dispatch-next_id : (key : ℕ) (s : Shared C) → (State.dispatch key s).0.next_id ≡ s.next_id
  unfolding State.dispatch
  dispatch-next_id key s = ground arith

  leave-next_id :
      (now : ℕ) (task : TimerTask C) (s : Shared C) → (State.leave now task s).0.next_id ≡ s.next_id
  unfolding State.leave
  leave-next_id now task s = ground arith

  cancel-next_id : (key : ℕ) (s : Shared C) → (State.cancel key s).0.next_id ≡ s.next_id
  unfolding State.cancel
  cancel-next_id key s = ground arith

  request_stop-next_id : (s : Shared C) → (State.request_stop s).0.next_id ≡ s.next_id
  unfolding State.request_stop
  request_stop-next_id s = ground arith

  enter-next_id : (key : ℕ) (s : Shared C) → (State.enter key s).0.next_id ≡ s.next_id
  unfolding State.enter
  enter-next_id key s = ground arith

  -- The wrapper of a timer that is gone does not go on to the callback.
  not_started : (key : ℕ) (s : Shared C) → Gone s → (State.enter key s).1 ≡ true → key ≢ id
  unfolding State.enter
  not_started key s (h, lt) runs e = ground arith

  leave-Gone :
      (now : ℕ) (task : TimerTask C) (s : Shared C) → Gone s → Gone (State.leave now task s).0
  unfolding State.leave
  leave-Gone now task s (h, lt) = ground arith

  -- The timer is gone after the step too, and the step does not start its callback.
  abbrev pub Kept : ℕ → System C × List (TimerTask C) → Type 0
  Kept n r = StillGone n r.0.shared × All (λ task. task.id ≢ id) r.1

  -- The steps that depend on what is in the worker's lists, and the executor's.
  dispatch-Kept :
      (s : System C) (posting ready : List (TimerTask C))
      → Gone s.shared
      → let s' = record s { posting = posting; ready = ready } in
        Kept (s.shared.next_id + 1) (after s' (step Event.dispatch s'))
  unfolding step
  dispatch-Kept s [] [] (h, lt) = ground arith
  dispatch-Kept s [] (task ∷ ready) (h, lt) =
      ground (arith, dispatch-Gone task.id s.shared, dispatch-next_id task.id s.shared)
  dispatch-Kept s (task ∷ posting) ready (h, lt) = ground arith

  posted-Kept :
      (accepted : Bool) (s : System C) (posting : List (TimerTask C))
      → Gone s.shared
      → let s' = record s { posting = posting } in
        Kept (s.shared.next_id + 1) (after s' (step (Event.posted accepted) s'))
  unfolding step State.rejected
  posted-Kept accepted s [] (h, lt) = ground arith
  posted-Kept true s (task ∷ posting) (h, lt) = ground arith
  posted-Kept false s (task ∷ posting) (h, lt) = ground arith

  enter-Kept :
      (s : System C) (picked : Option (TimerTask C × List (TimerTask C)))
      → Gone s.shared
      → Kept (s.shared.next_id + 1) (after s (enter_picked s picked))
  unfolding enter_picked
  enter-Kept s none (h, lt) = ground arith
  enter-Kept s (some (task, queued)) (h, lt) = elim (Bool-cases (State.enter task.id s.shared).1) [
    | inl runs ↦ rw runs (
        ground (
          arith,
          enter-Gone task.id s.shared,
          enter-next_id task.id s.shared,
          not_started task.id s.shared,
        ))
    | inr stays ↦
        rw stays (ground (arith, enter-Gone task.id s.shared, enter-next_id task.id s.shared))
  ]

  leave-Kept :
      (now : ℕ) (s : System C) (picked : Option (TimerTask C × List (TimerTask C)))
      → Gone s.shared
      → Kept (s.shared.next_id + 1) (after s (leave_picked now s picked))
  unfolding leave_picked
  leave-Kept now s none (h, lt) = ground arith
  leave-Kept now s (some (task, running)) (h, lt) =
      ground (arith, leave-Gone now task s.shared, leave-next_id now task s.shared)

  destroy-Kept :
      (s : System C) (picked : Option (TimerTask C × List (TimerTask C)))
      → Gone s.shared
      → Kept (s.shared.next_id + 1) (after s (destroy_picked s picked))
  unfolding destroy_picked
  destroy-Kept s none (h, lt) = ground arith
  destroy-Kept s (some (task, queued)) (h, lt) = ground arith

  step-Kept :
      (e : Event C) (s : System C)
      → Gone s.shared
      → s.shared.next_id + 1 < size_limit
      → Kept (s.shared.next_id + 1) (after s (step e s))
  unfolding step State.start State.finish State.finish_in_flight State.schedule_after
      State.schedule_every State.add_timer drop_step collect_step release_step finish_step
  step-Kept Event.start s (h, lt) room = ground arith
  step-Kept Event.request_stop s (h, lt) room =
      ground (arith, request_stop-Gone s.shared, request_stop-next_id s.shared)
  step-Kept Event.finish s (h, lt) room = ground arith
  step-Kept Event.drop_cancelled s (h, lt) room =
      ground (arith, drop_cancelled-gone s.shared.tasks s.shared.states)
  step-Kept Event.dispatch s h room = dispatch-Kept s s.posting s.ready h
  step-Kept Event.release s (h, lt) room = ground arith
  step-Kept (Event.schedule_after now delay task) s (h, lt) room = ground arith
  step-Kept (Event.schedule_every now interval task) s (h, lt) room = ground arith
  step-Kept (Event.cancel key) s (h, lt) room =
      ground (arith, cancel-Gone key s.shared, cancel-next_id key s.shared)
  step-Kept (Event.enter place) s h room = enter-Kept s (pick place s.queued) h
  step-Kept (Event.destroy place) s h room = destroy-Kept s (pick place s.queued) h
  step-Kept (Event.collect now) s (h, lt) room =
      ground (arith, collect-gone now s.shared.tasks s.shared.states)
  step-Kept (Event.posted accepted) s h room = posted-Kept accepted s s.posting h
  step-Kept (Event.leave now place) s h room = leave-Kept now s (pick place s.running) h

  run-Gone :
      (events : List (Event C)) (s : System C)
      → Gone s.shared
      → s.shared.next_id + length events < size_limit
      → All (λ task. task.id ≢ id) (run events s).1
  unfolding run
  run-Gone [] s h room = tt
  run-Gone (e ∷ events) s h room =
      let ((h', lt, small), quiet) = step-Kept e s h (omega arith) in
      All-append _ _ _ quiet (run-Gone events _ (h', lt) (omega arith))

  -- Once `cancel` has been called for a timer that has been given out, no events whatever start its
  -- callback again; while the number of events does not exhaust the 64-bit ids.
  pub cancel_final :
      (events : List (Event C)) (s : System C)
      → id < s.shared.next_id
      → s.shared.next_id + suc (length events) < size_limit
      → All (λ task. task.id ≢ id) (run (Event.cancel id ∷ events) s).1
  unfolding run step
  cancel_final events s lt room =
      run-Gone events _ (cancelled-Gone s.shared lt) (omega (arith, cancel-next_id id s.shared))
