-- ===== src/TimerScheduler/Stop.antt =====
-- `request_stop` of code/TimerScheduler/TimerScheduler.cpp, and the events after it.
use unix_notes.Prelude.{
  pick, ℕ, ◌+◌, ◌≤◌, ◌≡◌, Bool, true, false, List, [], ◌∷◌, Option, none, some, arith, length,
  length-append,
}
use unix_notes.TimerScheduler.State
use unix_notes.TimerScheduler.State.{
  Shared, TimerTask, SchedulerState, created, running, stopping, stopped,
}
use unix_notes.TimerScheduler.System.{
  System, Event, step, after, run, enter_picked, leave_picked, destroy_picked, drop_step,
  collect_step, dispatch_step, posted_step, release_step, finish_step,
}
use unix_notes.TimerScheduler.Account.{Shorter, pick-Shorter}

abbrev pub is_over : SchedulerState → Bool
is_over created = false
is_over running = false
is_over stopping = true
is_over stopped = true

module _ {C : Type 0} where
  -- The wrappers that have not started.
  abbrev pub waiting : System C → ℕ
  waiting s = length s.posting + length s.queued

  abbrev pub Over : System C → Type 0
  Over s = is_over s.shared.scheduler_state ≡ true

  -- The scheduler is over still, and what starts is no longer waiting.
  abbrev Kept : System C → System C × List (TimerTask C) → Type 0
  Kept s r = Over r.0 × (length r.1 + waiting r.0 ≤ waiting s)

  dispatch-Over :
      (s : System C) (posting ready : List (TimerTask C))
      → let s' = record s { posting = posting; ready = ready } in
        Over s' → Kept s' (after s' (dispatch_step s'))
  unfolding dispatch_step State.dispatch
  dispatch-Over s [] [] h = ground arith
  dispatch-Over s [] (task ∷ ready) h = ground arith
  dispatch-Over s (task ∷ posting) ready h = ground arith

  posted-Over :
      (accepted : Bool) (s : System C) (posting : List (TimerTask C))
      → let s' = record s { posting = posting } in
        Over s' → Kept s' (after s' (posted_step accepted s'))
  unfolding posted_step State.rejected
  posted-Over accepted s [] h = ground arith
  posted-Over true s (task ∷ posting) h = ground (arith, length-append s.queued (task ∷ []))
  posted-Over false s (task ∷ posting) h = ground arith

  enter-Over :
      (s : System C) (picked : Option (TimerTask C × List (TimerTask C)))
      → Shorter s.queued picked
      → Over s
      → Kept s (after s (enter_picked s picked))
  unfolding enter_picked State.enter
  enter-Over s none e h = ground arith
  enter-Over s (some (task, queued)) e h = ground arith

  leave-Over :
      (now : ℕ) (s : System C) (picked : Option (TimerTask C × List (TimerTask C)))
      → Over s
      → Kept s (after s (leave_picked now s picked))
  unfolding leave_picked State.leave
  leave-Over now s none h = ground arith
  leave-Over now s (some (task, left)) h = ground arith

  destroy-Over :
      (s : System C) (picked : Option (TimerTask C × List (TimerTask C)))
      → Shorter s.queued picked
      → Over s
      → Kept s (after s (destroy_picked s picked))
  unfolding destroy_picked
  destroy-Over s none e h = ground arith
  destroy-Over s (some (task, queued)) e h = ground arith

  step-Over : (e : Event C) (s : System C) → Over s → Kept s (after s (step e s))
  unfolding step State.start State.finish State.finish_in_flight State.request_stop
      State.schedule_after State.schedule_every State.add_timer State.cancel drop_step collect_step
      release_step finish_step
  step-Over Event.start s h = ground arith
  step-Over Event.request_stop s h = ground arith
  step-Over Event.finish s h = ground arith
  step-Over Event.drop_cancelled s h = ground arith
  step-Over Event.dispatch s h = dispatch-Over s s.posting s.ready h
  step-Over Event.release s h = ground arith
  step-Over (Event.schedule_after now delay task) s h = ground arith
  step-Over (Event.schedule_every now interval task) s h = ground arith
  step-Over (Event.cancel key) s h = ground arith
  step-Over (Event.enter place) s h =
      enter-Over s (pick place s.queued) (pick-Shorter place s.queued) h
  step-Over (Event.destroy place) s h =
      destroy-Over s (pick place s.queued) (pick-Shorter place s.queued) h
  step-Over (Event.collect now) s h = ground arith
  step-Over (Event.posted accepted) s h = posted-Over accepted s s.posting h
  step-Over (Event.leave now place) s h = leave-Over now s (pick place s.running) h

  run-Over : (events : List (Event C)) (s : System C) → Over s → Kept s (run events s)
  unfolding run
  run-Over [] s h = (h, omega arith)
  run-Over (e ∷ events) s h =
      let (h', le) = step-Over e s h in
      let (h'', le') = run-Over events _ h' in
      (
        h'',
        omega (arith, length-append (after s (step e s)).1 (run events (after s (step e s)).0).1),
      )

  stopped-Over : (s : System C) → Over (after s (step Event.request_stop s)).0
  unfolding step State.request_stop
  stopped-Over s = ground arith

  -- After `request_stop` the scheduler never runs again, and no more callbacks start than there were
  -- wrappers queued at the executor or being posted to it: no timer leaves the heap, and no repeated
  -- timer comes back.
  pub stop_final :
      (events : List (Event C)) (s : System C)
      → let (s', started) = run (Event.request_stop ∷ events) s in
        Over s' × (length started + waiting s' ≤ waiting s)
  unfolding run step State.request_stop
  stop_final events s =
      ground (arith, run-Over events (after s (step Event.request_stop s)).0 (stopped-Over s))
