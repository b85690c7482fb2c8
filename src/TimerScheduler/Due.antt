-- ===== src/TimerScheduler/Due.antt =====
-- The heap of code/TimerScheduler/TimerScheduler.cpp, its order, and the worker's loop over it.
use unix_notes.Prelude.{
  ℕ, ◌<◌, ◌≡◌, ◌≢◌, refl, true, false, ◌&&◌, List, [], ◌∷◌, arith, All, ==_ne, leb, if◌then◌else◌,
  Bool-cases, inl, inr,
}
use unix_notes.TimerScheduler.State
use unix_notes.TimerScheduler.State.{
  Shared, TimerTask, States, TimerState, pending, submitted, executing, cancelled, assign, take_due,
  is_pending, compare,
}

module _ {C : Type 0} where
  -- No entry comes after one that stands behind it.
  abbrev pub Ordered : List (TimerTask C) → Type 0
  Ordered [] = Unit
  Ordered (top ∷ tasks) = All (λ u. compare top u ≡ false) tasks × Ordered tasks

  -- The entries that are due after `now`, in the order of the heap.
  abbrev pub later : ℕ → List (TimerTask C) → List (TimerTask C)
  later now [] = []
  later now (task ∷ tasks) =
      if leb task.expiration now then later now tasks else task ∷ later now tasks

  -- The entries that are due by `now` and pending, in the order of the heap.
  abbrev pub due : ℕ → States → List (TimerTask C) → List (TimerTask C)
  due now states [] = []
  due now states (task ∷ tasks) =
      if leb task.expiration now && is_pending (states task.id)
      then task ∷ due now states tasks
      else due now states tasks

  -- No timer is in the heap twice.
  abbrev pub Distinct : List (TimerTask C) → Type 0
  Distinct [] = Unit
  Distinct (task ∷ tasks) = All (λ u. u.id ≢ task.id) tasks × Distinct tasks

  later_whole :
      (now : ℕ) (top : TimerTask C) (tasks : List (TimerTask C))
      → now < top.expiration
      → All (λ u. compare top u ≡ false) tasks
      → later now tasks ≡ tasks
  later_whole now top [] h p = refl
  later_whole now top (task ∷ tasks) h (p, ps) = ground (arith, later_whole now top tasks h ps)

  due_none :
      (now : ℕ) (states : States) (top : TimerTask C) (tasks : List (TimerTask C))
      → now < top.expiration
      → All (λ u. compare top u ≡ false) tasks
      → due now states tasks ≡ []
  due_none now states top [] h p = refl
  due_none now states top (task ∷ tasks) h (p, ps) =
      ground (arith, due_none now states top tasks h ps)

  -- The state of one timer does not matter to the others.
  due-take_due :
      (now key : ℕ) (states : States) (tasks : List (TimerTask C))
      → All (λ u. u.id ≢ key) tasks
      → due now (take_due key states) tasks ≡ due now states tasks
  due-take_due now key states [] p = refl
  due-take_due now key states (task ∷ tasks) (p, ps) =
      ground (arith, ==_ne task.id key p, due-take_due now key states tasks ps)

  -- On an ordered heap that has no timer twice, the worker's loop leaves just the timers that are due
  -- later and takes just those that are due and pending, both in the order of the heap.
  pub collect-due :
      (now : ℕ) (tasks : List (TimerTask C)) (states : States)
      → Ordered tasks
      → Distinct tasks
      → let (left, _, ready) = State.collect now tasks states in
        (left ≡ later now tasks) × (ready ≡ due now states tasks)
  unfolding State.collect
  collect-due now [] states o d = (refl, refl)
  collect-due now (top ∷ tasks) states (p, o) (d, ds) = elim (Bool-cases (leb top.expiration now)) [
    | inl now_due ↦ ground (
      arith,
      collect-due now tasks (take_due top.id states) o ds,
      due-take_due now top.id states tasks d,
    )
    | inr not_yet ↦ ground (
      arith,
      later_whole now top tasks (ground arith) p,
      due_none now states top tasks (ground arith) p,
    )
  ]

  compare_trans :
      (a b c : TimerTask C) → compare a b ≡ false → compare b c ≡ false → compare a c ≡ false
  compare_trans a b c p q = ground arith

  compare_total : (a b : TimerTask C) → compare a b ≡ true → compare b a ≡ false
  compare_total a b p = ground arith

  before_trans :
      (a b : TimerTask C) (tasks : List (TimerTask C))
      → compare a b ≡ false
      → All (λ u. compare b u ≡ false) tasks
      → All (λ u. compare a u ≡ false) tasks
  before_trans a b [] p q = tt
  before_trans a b (c ∷ tasks) p (q, qs) = (compare_trans a b c p q, before_trans a b tasks p qs)

  before-push :
      (a task : TimerTask C) (tasks : List (TimerTask C))
      → compare a task ≡ false
      → All (λ u. compare a u ≡ false) tasks
      → All (λ u. compare a u ≡ false) (State.push task tasks)
  unfolding State.push
  before-push a task [] p q = (p, tt)
  before-push a task (u ∷ us) p (q, qs) = elim (Bool-cases (compare task u)) [
    | inl after_u ↦ rw after_u (q, before-push a task us p qs)
    | inr before_u ↦ rw before_u (p, (q, qs))
  ]

  pub push-Ordered :
      (task : TimerTask C) (tasks : List (TimerTask C))
      → Ordered tasks
      → Ordered (State.push task tasks)
  unfolding State.push
  push-Ordered task [] o = (tt, tt)
  push-Ordered task (u ∷ us) (p, o) = elim (Bool-cases (compare task u)) [
    | inl after_u ↦
        rw after_u (before-push u task us (compare_total task u after_u) p, push-Ordered task us o)
    | inr before_u ↦ rw before_u ((before_u, before_trans task u us before_u p), (p, o))
  ]

  pub collect-Ordered :
      (now : ℕ) (tasks : List (TimerTask C)) (states : States)
      → Ordered tasks
      → Ordered (State.collect now tasks states).0
  unfolding State.collect
  collect-Ordered now [] states o = tt
  collect-Ordered now (top ∷ tasks) states (p, o) = elim (Bool-cases (leb top.expiration now)) [
    | inl now_due ↦ rw now_due (collect-Ordered now tasks (take_due top.id states) o)
    | inr not_yet ↦ rw not_yet (p, o)
  ]
