-- ===== src/TimerScheduler/Account.antt =====
-- `in_flight` of code/TimerScheduler/TimerScheduler.cpp beside the wrappers that are alive.
use unix_notes.Prelude.{
  pick, ℕ, zero, suc, ◌+◌, ◌<◌, ◌≤◌, ◌≡◌, refl, ap, Bool, true, false, List, [], ◌∷◌, Option, none,
  some, arith, length, length-append, size_limit,
}
use unix_notes.TimerScheduler.State
use unix_notes.TimerScheduler.State.{Shared, TimerTask}
use unix_notes.TimerScheduler.System
use unix_notes.TimerScheduler.System.{
  System, Event, Step, step, after, run, enter_picked, leave_picked, destroy_picked, drop_step,
  collect_step, dispatch_step, posted_step, release_step, finish_step,
}

-- What is picked leaves a list that is shorter by one.
abbrev pub Shorter : {A : Type 0} → List A → Option (A × List A) → Type 0
Shorter xs none = Unit
Shorter xs (some (x, ys)) = length xs ≡ suc (length ys)

pick-cons :
    {A : Type 0} (x : A) (xs : List A) (p : Option (A × List A))
    → Shorter xs p
    → Shorter (x ∷ xs) (elim p [ none ↦ none | some (y, ys) ↦ some (y, x ∷ ys) ])
pick-cons x xs none h = tt
pick-cons x xs (some (y, ys)) h = ap suc h

pub pick-Shorter : {A : Type 0} (n : ℕ) (xs : List A) → Shorter xs (pick n xs)
pick-Shorter n [] = tt
pick-Shorter zero (x ∷ xs) = refl
pick-Shorter (suc n) (x ∷ xs) = pick-cons x xs (pick n xs) (pick-Shorter n xs)

module _ {C : Type 0} where
  -- The wrappers that are alive.
  abbrev pub alive : System C → ℕ
  alive s = length s.posting + length s.queued + length s.running + s.spent

  abbrev pub Accounted : System C → Type 0
  Accounted s = s.shared.in_flight ≡ alive s

  -- A step keeps the account, and adds at most one wrapper.
  abbrev Kept : System C → System C → Type 0
  Kept s s' = Accounted s' × (alive s' ≤ suc (alive s))

  dispatch-Accounted :
      (s : System C) (posting ready : List (TimerTask C))
      → let s' = record s { posting = posting; ready = ready } in
        Accounted s' → alive s' + 1 < size_limit → Kept s' (after s' (dispatch_step s')).0
  unfolding dispatch_step State.dispatch
  dispatch-Accounted s [] [] h room = ground arith
  dispatch-Accounted s [] (task ∷ ready) h room = ground arith
  dispatch-Accounted s (task ∷ posting) ready h room = ground arith

  posted-Accounted :
      (accepted : Bool) (s : System C) (posting : List (TimerTask C))
      → let s' = record s { posting = posting } in
        Accounted s' → Kept s' (after s' (posted_step accepted s')).0
  unfolding posted_step State.rejected
  posted-Accounted accepted s [] h = ground arith
  posted-Accounted true s (task ∷ posting) h = ground (arith, length-append s.queued (task ∷ []))
  posted-Accounted false s (task ∷ posting) h = ground arith

  enter-Accounted :
      (s : System C) (picked : Option (TimerTask C × List (TimerTask C)))
      → Shorter s.queued picked
      → Accounted s
      → Kept s (after s (enter_picked s picked)).0
  unfolding enter_picked State.enter
  enter-Accounted s none e h = ground arith
  enter-Accounted s (some (task, queued)) e h = ground arith

  leave-Accounted :
      (now : ℕ) (s : System C) (picked : Option (TimerTask C × List (TimerTask C)))
      → Shorter s.running picked
      → Accounted s
      → Kept s (after s (leave_picked now s picked)).0
  unfolding leave_picked State.leave
  leave-Accounted now s none e h = ground arith
  leave-Accounted now s (some (task, running)) e h = ground arith

  destroy-Accounted :
      (s : System C) (picked : Option (TimerTask C × List (TimerTask C)))
      → Shorter s.queued picked
      → Accounted s
      → Kept s (after s (destroy_picked s picked)).0
  unfolding destroy_picked
  destroy-Accounted s none e h = ground arith
  destroy-Accounted s (some (task, queued)) e h = ground arith

  release-Accounted :
      (s : System C) (spent : ℕ)
      → let s' = record s { spent = spent } in
        Accounted s' → alive s' + 1 < size_limit → Kept s' (after s' (release_step s')).0
  unfolding release_step State.finish_in_flight
  release-Accounted s zero h room = ground arith
  release-Accounted s (suc n) h room = ground arith

  step-Accounted :
      (e : Event C) (s : System C)
      → Accounted s
      → alive s + 1 < size_limit
      → Kept s (after s (step e s)).0
  unfolding step State.start State.finish State.request_stop State.schedule_after
      State.schedule_every State.add_timer State.cancel drop_step collect_step finish_step
  step-Accounted Event.start s h room = ground arith
  step-Accounted Event.request_stop s h room = ground arith
  step-Accounted Event.finish s h room = ground arith
  step-Accounted Event.drop_cancelled s h room = ground arith
  step-Accounted Event.dispatch s h room = dispatch-Accounted s s.posting s.ready h room
  step-Accounted Event.release s h room = release-Accounted s s.spent h room
  step-Accounted (Event.schedule_after now delay task) s h room = ground arith
  step-Accounted (Event.schedule_every now interval task) s h room = ground arith
  step-Accounted (Event.cancel key) s h room = ground arith
  step-Accounted (Event.enter place) s h room =
      enter-Accounted s (pick place s.queued) (pick-Shorter place s.queued) h
  step-Accounted (Event.destroy place) s h room =
      destroy-Accounted s (pick place s.queued) (pick-Shorter place s.queued) h
  step-Accounted (Event.collect now) s h room = ground arith
  step-Accounted (Event.posted accepted) s h room = posted-Accounted accepted s s.posting h
  step-Accounted (Event.leave now place) s h room =
      leave-Accounted now s (pick place s.running) (pick-Shorter place s.running) h

  run-Accounted :
      (events : List (Event C)) (s : System C)
      → Accounted s
      → alive s + length events < size_limit
      → Accounted (run events s).0
  unfolding run
  run-Accounted [] s h room = h
  run-Accounted (e ∷ events) s h room =
      let (h', small) = step-Accounted e s h (omega arith) in
      run-Accounted events _ h' (omega arith)

  -- After any events from the constructor on, fewer than 2 ^ 64, `in_flight` is the number of
  -- wrappers that are being posted, are queued, run a callback, or still keep their completion alive.
  pub in_flight_lem :
      (events : List (Event C)) → length events < size_limit → Accounted (run events System.new).0
  unfolding System.new State.new
  in_flight_lem events room = run-Accounted events System.new refl (omega (arith, room))

  -- What `wait` and `stop` wait for: once `in_flight` is zero no wrapper is queued, none is being
  -- posted and none runs its callback; after any events from the constructor on, fewer than 2 ^ 64.
  pub wait_quiet :
      (events : List (Event C))
      → length events < size_limit
      → (run events System.new).0.shared.in_flight ≡ 0
      → let s = (run events System.new).0 in
        (length s.posting ≡ 0) × (length s.queued ≡ 0) × (length s.running ≡ 0)
  wait_quiet events room e = ground (arith, in_flight_lem events room)
