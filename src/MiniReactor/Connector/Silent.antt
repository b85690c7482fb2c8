-- ===== src/MiniReactor/Connector/Silent.antt =====
-- `stop` of code/MiniReactor/src/net/Connector.cpp and the callbacks.
use unix_notes.Prelude.{
  ◌≡◌, refl, ◌∙◌, inl, inr, Bool, true, false, List, [], ◌∷◌, none, some, arith, All,
}
use unix_notes.MiniReactor.Connector.{
  at_once, in_progress, refused, Connector, report_error, hand_over, answered, start_in_loop,
  stop_with, stop_in_loop, write_with, handle_write, error_with, handle_error, Event, starts, stops,
  start_runs, stop_runs, writable, failing, step, run,
}

-- `start` stores the flag, by itself or while `startInLoop` runs.
abbrev calls_start : Event → Bool
calls_start starts = true
calls_start (start_runs (some true) socket) = true
calls_start _ = false

-- `stop` stores the flag, by itself or between the two looks of a `startInLoop` that gets its socket.
abbrev pub calls_stop : Event → Bool
calls_stop stops = true
calls_stop (start_runs (some false) (inr socket)) = true
calls_stop _ = false

abbrev pub Unasked : List Event → Type 0
Unasked events = All (λ e. calls_start e ≡ false) events

-- The flag is off, and neither callback has been called since.
abbrev Silent : Connector → Connector → Type 0
Silent c d = (d.connect_requested ≡ false) × (d.handed ≡ c.handed) × (d.errors ≡ c.errors)

stop_halts : (e : Event) (c : Connector) → calls_stop e ≡ true → Silent c (step e c)
unfolding step start_in_loop answered report_error hand_over
stop_halts stops c h = (refl, refl, refl)
stop_halts (start_runs (some false) (inr (fd, at_once))) c h = ground arith
stop_halts (start_runs (some false) (inr (fd, in_progress))) c h = ground arith
stop_halts (start_runs (some false) (inr (fd, refused error))) c h = ground arith
stop_halts (start_runs (some false) (inl error)) c h = absurd (cc)
stop_halts (start_runs (some true) socket) c h = absurd (cc)
stop_halts (start_runs none socket) c h = absurd (cc)
stop_halts starts c h = absurd (cc)
stop_halts stop_runs c h = absurd (cc)
stop_halts (writable error) c h = absurd (cc)
stop_halts (failing error) c h = absurd (cc)

step-Silent :
    (e : Event) (c : Connector)
    → calls_start e ≡ false
    → c.connect_requested ≡ false
    → Silent c (step e c)
unfolding step stop_in_loop handle_write handle_error start_in_loop answered report_error hand_over
    stop_with write_with error_with
step-Silent starts c n q = absurd (cc)
step-Silent stops c n q = (refl, refl, refl)
step-Silent (start_runs (some true) socket) c n q = absurd (cc)
step-Silent (start_runs (some false) (inl error)) c n q = ground (arith, q)
step-Silent (start_runs (some false) (inr (fd, answer))) c n q = ground (arith, q)
step-Silent (start_runs none (inl error)) c n q = ground (arith, q)
step-Silent (start_runs none (inr (fd, answer))) c n q = ground (arith, q)
step-Silent stop_runs c n q = ground (arith, q)
step-Silent (writable error) c n q = ground (arith, q)
step-Silent (failing error) c n q = ground (arith, q)

run-Silent :
    (events : List Event) (c : Connector)
    → Unasked events
    → c.connect_requested ≡ false
    → ((run events c).handed ≡ c.handed) × ((run events c).errors ≡ c.errors)
unfolding run
run-Silent [] c n q = (refl, refl)
run-Silent (e ∷ events) c (first, rest) q =
    let (off, same_handed, same_errors) = step-Silent e c first q in
    let (a, b) = run-Silent events (step e c) rest off in (a ∙ same_handed, b ∙ same_errors)

-- From the store of `stop` on, which may come between two handlers or between the two looks at the flag of
-- a `startInLoop` that gets a socket, and until `start` stores the flag again, a connector hands no
-- socket over and tells of no error; the callback of a handler counts as made at its last look.
pub stopped_silent :
    (stop : Event) (events : List Event) (c : Connector)
    → calls_stop stop ≡ true
    → Unasked events
    → ((run (stop ∷ events) c).handed ≡ c.handed) × ((run (stop ∷ events) c).errors ≡ c.errors)
unfolding run
stopped_silent stop events c h n =
    let (off, same_handed, same_errors) = stop_halts stop c h in
    let (a, b) = run-Silent events (step stop c) n off in (a ∙ same_handed, b ∙ same_errors)
