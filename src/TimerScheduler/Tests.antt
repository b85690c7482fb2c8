-- ===== src/TimerScheduler/Tests.antt =====
-- A scheduler with two timers, one of them repeated: one is cancelled while the executor has it, the
-- other runs.
use unix_notes.Prelude.{
  ℕ, ◌+◌, ◌≤◌, ◌≡◌, ◌≢◌, refl, List, [], ◌∷◌, ◌++◌, some, arith, All, length, pos, true, map,
}
use unix_notes.TimerScheduler.State
use unix_notes.TimerScheduler.State.{TimerTask}
use unix_notes.TimerScheduler.System
use unix_notes.TimerScheduler.System.{
  System, Event, run, step, drop_step, collect_step, dispatch_step, posted_step, enter_picked,
  leave_picked, destroy_picked, release_step, finish_step,
}
use unix_notes.TimerScheduler.Cancel.{cancel_final}
use unix_notes.TimerScheduler.Account.{wait_quiet}
use unix_notes.TimerScheduler.Stop.{Over, waiting, stop_final}
use unix_notes.TimerScheduler.Places.{places, timer_single}
use unix_notes.TimerScheduler.Due.{Ordered, later, due}
use unix_notes.TimerScheduler.Heap.{collect_reachable}

-- Timer 1 is due at 15, timer 2 at 12 and then every two ticks.
abbrev set_up : List (Event ℕ)
set_up =
    Event.start
    ∷ Event.schedule_after 10 (pos 5) (some 100)
    ∷ Event.schedule_every 10 (pos 2) (some 200)
    ∷ []

abbrev hand_over : List (Event ℕ)
hand_over =
    Event.collect 20 ∷ Event.dispatch ∷ Event.posted true ∷ Event.dispatch ∷ Event.posted true ∷ []

abbrev run_all : List (Event ℕ)
run_all =
    Event.enter 0
    ∷ Event.enter 0
    ∷ Event.leave 21 0
    ∷ Event.leave 22 0
    ∷ Event.release
    ∷ Event.release
    ∷ []

-- Both timers are due at 20, timer 2 first.
both_start : map TimerTask.id (run (set_up ++ (hand_over ++ run_all)) System.new).1 ≡ 2 ∷ 1 ∷ []
unfolding run step System.new State.new State.start State.schedule_after State.schedule_every
    State.add_timer State.push collect_step State.collect dispatch_step State.dispatch posted_step
    enter_picked State.enter leave_picked State.leave release_step State.finish_in_flight
both_start = refl

-- Timer 2 is cancelled once the executor has it.
one_starts :
    map TimerTask.id (run (set_up ++ (hand_over ++ (Event.cancel 2 ∷ run_all))) System.new).1
    ≡ 1 ∷ []
unfolding run step System.new State.new State.start State.schedule_after State.schedule_every
    State.add_timer State.push State.cancel collect_step State.collect dispatch_step State.dispatch
    posted_step enter_picked State.enter leave_picked State.leave release_step
    State.finish_in_flight
one_starts = refl

abbrev handed_over : System ℕ
handed_over = (run (set_up ++ hand_over) System.new).0

cancel_final_example : All (λ task. task.id ≢ 2) (run (Event.cancel 2 ∷ run_all) handed_over).1
unfolding run step System.new State.new State.start State.schedule_after State.schedule_every
    State.add_timer State.push collect_step State.collect dispatch_step State.dispatch posted_step
cancel_final_example = cancel_final 2 run_all handed_over (omega arith) (omega arith)

stop_final_example :
    let (s, started) = run (Event.request_stop ∷ run_all) handed_over in
    Over s × (length started + waiting s ≤ waiting handed_over)
stop_final_example = stop_final run_all handed_over

wait_quiet_example :
    let s = (run (set_up ++ (hand_over ++ run_all)) System.new).0 in
    (length s.posting ≡ 0) × (length s.queued ≡ 0) × (length s.running ≡ 0)
unfolding run step System.new State.new State.start State.schedule_after State.schedule_every
    State.add_timer State.push collect_step State.collect dispatch_step State.dispatch posted_step
    enter_picked State.enter leave_picked State.leave release_step State.finish_in_flight
wait_quiet_example = wait_quiet (set_up ++ (hand_over ++ run_all)) (omega arith) refl

timer_single_example : places 2 (run (set_up ++ (hand_over ++ run_all)) System.new).0 ≤ 1
timer_single_example = timer_single 2 (set_up ++ (hand_over ++ run_all)) (omega arith)

collect_reachable_example :
    let s = (run set_up System.new).0.shared in
    let (left, _, ready) = State.collect 13 s.tasks s.states in
    Ordered s.tasks × (left ≡ later 13 s.tasks) × (ready ≡ due 13 s.states s.tasks)
collect_reachable_example = collect_reachable set_up 13 (omega arith)
