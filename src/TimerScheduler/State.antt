-- ===== src/TimerScheduler/State.antt =====
-- `TimerScheduler::SharedState` and the critical sections of TimerScheduler.cpp. A section returns
-- the new state and whether it ends with a notification. A time is a number of ticks of the clock;
-- that sums of times stay in the clock's range is left to the caller. The priority queue is the list
-- of its elements, the top first; the map from timers to their states is a function.
use unix_notes.Prelude.{
  ℕ, ◌+◌, Bool, true, false, not, ◌&&◌, List, [], ◌∷◌, Option, none, some, ltb, leb, ◌==◌,
  if◌then◌else◌, Outcome, ok, throws, ◌>>◌, throw_if, invalid_argument, logic_error, add_size,
  sub_size, ℤ, pos, negsuc,
}

pub data SchedulerState : Type 0 where
  created running stopping stopped : SchedulerState

pub data TimerState : Type 0 where
  pending submitted executing cancelled : TimerState

-- `C` is the type of callbacks.
pub record TimerTask (C : Type 0) : Type 0 where
  pub id : ℕ
  pub expiration : ℕ
  pub interval : ℕ
  pub repeated : Bool
  pub callback : C

abbrev pub States : Type 0
States = ℕ → Option TimerState

pub record Shared (C : Type 0) : Type 0 where
  pub tasks : List (TimerTask C)
  pub states : States
  pub scheduler_state : SchedulerState
  pub next_id : ℕ
  pub in_flight : ℕ

abbrev pub is_created : SchedulerState → Bool
is_created created = true
is_created _ = false

abbrev pub is_running : SchedulerState → Bool
is_running running = true
is_running _ = false

-- `it->second = value` or `states.erase(id)` at the key `id`.
abbrev pub assign : ℕ → Option TimerState → States → States
assign id value states key = if key == id then value else states key

-- `states.emplace(id, value)`: a key that is there keeps its value.
abbrev pub emplace : ℕ → TimerState → States → States
emplace id value states key = elim (states id) [
  | some old ↦ states key
  | none ↦ if key == id then some value else states key
]

abbrev pub cancel_pending : Option TimerState → Option TimerState
cancel_pending (some pending) = some cancelled
cancel_pending other = other

-- What becomes of the state of a timer that is due.
abbrev pub take_due : ℕ → States → States
take_due id states = elim (states id) [
  | none ↦ states
  | some cancelled ↦ assign id none states
  | some pending ↦ assign id (some submitted) states
  | some _ ↦ states
]

abbrev pub is_pending : Option TimerState → Bool
is_pending (some pending) = true
is_pending _ = false

module _ {C : Type 0} where
  unfoldable pub new : Shared C
  new = record {
    tasks = [];
    states = λ _. none;
    scheduler_state = created;
    next_id = 1;
    in_flight = 0;
  }

  -- `TimerTaskCompare`: whether the first comes after the second.
  abbrev pub compare : TimerTask C → TimerTask C → Bool
  compare lhs rhs =
      if not (lhs.expiration == rhs.expiration)
      then ltb rhs.expiration lhs.expiration
      else ltb rhs.id lhs.id

  unfoldable pub push : TimerTask C → List (TimerTask C) → List (TimerTask C)
  push task [] = task ∷ []
  push task (u ∷ us) = if compare task u then u ∷ push task us else task ∷ u ∷ us

  -- `tasks.empty() || expiration < tasks.top().expiration`
  abbrev pub comes_first : ℕ → List (TimerTask C) → Bool
  comes_first expiration [] = true
  comes_first expiration (top ∷ _) = ltb expiration top.expiration

  unfoldable pub start : Shared C → Outcome (Shared C)
  start s = do
    throw_if (not (is_created s.scheduler_state)) logic_error
    ok (record s { scheduler_state = running })

  unfoldable pub request_stop : Shared C → Shared C × Bool
  request_stop s = elim s.scheduler_state [
    | created ↦ (record s { scheduler_state = stopped }, false)
    | running ↦
        (record s { scheduler_state = stopping; states = λ id. cancel_pending (s.states id) }, true)
    | stopping ↦ (s, false)
    | stopped ↦ (s, false)
  ]

  -- The section of `schedule_after` and `schedule_every`; it also returns the timer's id.
  unfoldable pub add_timer : ℕ → ℕ → Bool → C → Shared C → Outcome (Shared C × ℕ × Bool)
  unfolding push
  add_timer expiration interval repeated callback s = do
    throw_if (not (is_running s.scheduler_state)) logic_error
    ok (
      record s {
        next_id = add_size s.next_id 1;
        states = emplace s.next_id pending s.states;
        tasks =
            push
              (record {
                id = s.next_id;
                expiration = expiration;
                interval = interval;
                repeated = repeated;
                callback = callback;
              })
              s.tasks;
      },
      s.next_id,
      comes_first expiration s.tasks,
    )

  -- An empty `Task` is `none`.
  unfoldable pub schedule_after : ℕ → ℤ → Option C → Shared C → Outcome (Shared C × ℕ × Bool)
  unfolding add_timer
  schedule_after now (negsuc n) task s = throws invalid_argument
  schedule_after now (pos delay) none s = throws invalid_argument
  schedule_after now (pos delay) (some callback) s = add_timer (now + delay) 0 false callback s

  unfoldable pub schedule_every : ℕ → ℤ → Option C → Shared C → Outcome (Shared C × ℕ × Bool)
  unfolding add_timer
  schedule_every now (negsuc n) task s = throws invalid_argument
  schedule_every now (pos interval) task s = do
    throw_if (interval == 0) invalid_argument
    elim task [
      | none ↦ throws invalid_argument
      | some callback ↦ add_timer (now + interval) interval true callback s
    ]

  -- `!tasks.empty() && tasks.top().id == id`
  abbrev pub is_top : ℕ → List (TimerTask C) → Bool
  is_top id [] = false
  is_top id (top ∷ _) = top.id == id

  -- The state, the result, and whether the worker is woken.
  unfoldable pub cancel : ℕ → Shared C → Shared C × Bool × Bool
  cancel id s = elim (s.states id) [
    | none ↦ (s, false, false)
    | some cancelled ↦ (s, false, false)
    | _ ↦ (record s { states = assign id (some cancelled) s.states }, true, is_top id s.tasks)
  ]

  unfoldable pub finish_in_flight : Shared C → Shared C × Bool
  finish_in_flight s =
      let left = if ltb 0 s.in_flight then sub_size s.in_flight 1 else s.in_flight in
      (record s { in_flight = left }, left == 0)

  -- The worker's `for (;;)`: the cancelled timers at the top are dropped.
  unfoldable pub drop_cancelled : List (TimerTask C) → States → List (TimerTask C) × States
  drop_cancelled [] states = ([], states)
  drop_cancelled (top ∷ tasks) states = elim (states top.id) [
    | some cancelled ↦ drop_cancelled tasks (assign top.id none states)
    | _ ↦ (top ∷ tasks, states)
  ]

  -- The worker's `while`: what is left in the heap, the states, and `ready_tasks`.
  unfoldable pub collect :
      ℕ → List (TimerTask C) → States → List (TimerTask C) × States × List (TimerTask C)
  collect now [] states = ([], states, [])
  collect now (top ∷ tasks) states =
      let (tasks', states', ready) = collect now tasks (take_due top.id states) in
      if leb top.expiration now
      then (tasks', states', (if is_pending (states top.id) then top ∷ ready else ready))
      else (top ∷ tasks, states, [])

  -- The check before a ready timer is posted, and whether it is to be posted.
  unfoldable pub dispatch : ℕ → Shared C → Shared C × Bool
  dispatch id s =
      let erased = record s { states = assign id none s.states } in
      elim (s.states id) [
        | none ↦ (s, false)
        | some cancelled ↦ (erased, false)
        | some submitted ↦
            if is_running s.scheduler_state
            then (record s { in_flight = add_size s.in_flight 1 }, true)
            else (erased, false)
        | some _ ↦ if is_running s.scheduler_state then (s, false) else (erased, false)
      ]

  -- The timer was not accepted by the executor.
  unfoldable pub rejected : ℕ → Shared C → Shared C
  rejected id s = record s { states = assign id none s.states }

  -- The first section of the wrapper, and whether it goes on to the callback.
  unfoldable pub enter : ℕ → Shared C → Shared C × Bool
  enter id s = elim (s.states id) [
    | none ↦ (s, false)
    | some cancelled ↦ (record s { states = assign id none s.states }, false)
    | some submitted ↦ (record s { states = assign id (some executing) s.states }, true)
    | some _ ↦ (s, false)
  ]

  -- The second section of the wrapper, once the callback is over; whether the worker is woken.
  unfoldable pub leave : ℕ → TimerTask C → Shared C → Shared C × Bool
  unfolding push
  leave now task s =
      let erased = record s { states = assign task.id none s.states } in
      let next_expiration = now + task.interval in
      elim (s.states task.id) [
        | none ↦ (s, false)
        | some executing ↦
            if task.repeated && is_running s.scheduler_state
            then (
              record s {
                states = assign task.id (some pending) s.states;
                tasks =
                    push (record task { expiration = next_expiration; repeated = true }) s.tasks;
              },
              comes_first next_expiration s.tasks,
            )
            else (erased, false)
        | some _ ↦ (erased, false)
      ]

  -- The last section of `wait` and `stop`.
  unfoldable pub finish : Shared C → Shared C
  finish s = record s { tasks = []; states = λ _. none; scheduler_state = stopped }
