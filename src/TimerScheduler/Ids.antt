-- ===== src/TimerScheduler/Ids.antt =====
-- `next_id` of code/TimerScheduler/TimerScheduler.cpp over one step.
use unix_notes.Prelude.{
  pick, ℕ, ◌+◌, ◌<◌, ◌≤◌, Bool, true, false, List, [], ◌∷◌, Option, none, some, arith, size_limit,
}
use unix_notes.TimerScheduler.State
use unix_notes.TimerScheduler.State.{Shared, TimerTask}
use unix_notes.TimerScheduler.System.{
  System, Event, step, after, enter_picked, leave_picked, destroy_picked, drop_step, collect_step,
  dispatch_step, posted_step, release_step, finish_step,
}

module _ {C : Type 0} where
  -- The next id, after at most one more has been given out.
  abbrev pub Grows : System C → System C → Type 0
  Grows s s' = s'.shared.next_id ≤ s.shared.next_id + 1

  dispatch-Grows :
      (s : System C) (posting ready : List (TimerTask C))
      → let s' = record s { posting = posting; ready = ready } in
        Grows s' (after s' (dispatch_step s')).0
  unfolding dispatch_step State.dispatch
  dispatch-Grows s [] [] = ground arith
  dispatch-Grows s [] (task ∷ ready) = ground arith
  dispatch-Grows s (task ∷ posting) ready = ground arith

  posted-Grows :
      (accepted : Bool) (s : System C) (posting : List (TimerTask C))
      → let s' = record s { posting = posting } in Grows s' (after s' (posted_step accepted s')).0
  unfolding posted_step State.rejected
  posted-Grows accepted s [] = ground arith
  posted-Grows true s (task ∷ posting) = ground arith
  posted-Grows false s (task ∷ posting) = ground arith

  module _ (s : System C) where
    enter-Grows :
        (picked : Option (TimerTask C × List (TimerTask C)))
        → Grows s (after s (enter_picked s picked)).0
    unfolding enter_picked State.enter
    enter-Grows none = ground arith
    enter-Grows (some (task, queued)) = ground arith

    leave-Grows :
        (now : ℕ) (picked : Option (TimerTask C × List (TimerTask C)))
        → Grows s (after s (leave_picked now s picked)).0
    unfolding leave_picked State.leave
    leave-Grows now none = ground arith
    leave-Grows now (some (task, left)) = ground arith

    destroy-Grows :
        (picked : Option (TimerTask C × List (TimerTask C)))
        → Grows s (after s (destroy_picked s picked)).0
    unfolding destroy_picked
    destroy-Grows none = ground arith
    destroy-Grows (some (task, queued)) = ground arith

    pub step-Grows :
        (e : Event C) → s.shared.next_id + 1 < size_limit → Grows s (after s (step e s)).0
    unfolding step State.start State.finish State.finish_in_flight State.request_stop
        State.schedule_after State.schedule_every State.add_timer State.cancel drop_step
        collect_step release_step finish_step
    step-Grows Event.start room = ground arith
    step-Grows Event.request_stop room = ground arith
    step-Grows Event.finish room = ground arith
    step-Grows Event.drop_cancelled room = ground arith
    step-Grows Event.dispatch room = dispatch-Grows s s.posting s.ready
    step-Grows Event.release room = ground arith
    step-Grows (Event.schedule_after now delay task) room = ground arith
    step-Grows (Event.schedule_every now interval task) room = ground arith
    step-Grows (Event.cancel key) room = ground arith
    step-Grows (Event.enter place) room = enter-Grows (pick place s.queued)
    step-Grows (Event.destroy place) room = destroy-Grows (pick place s.queued)
    step-Grows (Event.collect now) room = ground arith
    step-Grows (Event.posted accepted) room = posted-Grows accepted s s.posting
    step-Grows (Event.leave now place) room = leave-Grows now (pick place s.running)
