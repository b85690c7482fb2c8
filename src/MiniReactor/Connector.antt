-- ===== src/MiniReactor/Connector.antt =====
-- `Connector` of code/MiniReactor/src/net/Connector.cpp: the calls from any thread set a flag, the rest
-- runs on the thread of the loop. What the kernel answers is given. The callbacks stand last in the
-- handlers that make them, so what they do comes as further events. A handler looks at the flag once,
-- `startInLoop` twice; its callback stands with its last look, and what other threads store in the flag
-- between the two looks is an argument.
pub mod Sockets
pub mod Silent
use unix_notes.Prelude.{
  ap₂, get_or, take_all, get_or-append_last, get_or-append_ne, add_size_exact, sub_size, pick, sum,
  sum-append, Picked, pick-Picked, ℕ, zero, suc, ◌+◌, ◌-◌, ◌*◌, ◌/◌, ◌%◌, ◌^◌, ◌≤◌, ◌<◌, ◌≡◌, refl,
  sym, ap, subst, ◌∙◌, ◌≢◌, ◌⊎◌, inl, inr, Bool, true, false, not, ◌&&◌, ◌||◌, List, [], ◌∷◌, ◌++◌,
  map, Option, none, some, arith, length, length-append, length-drop, ltb, leb, ◌==◌, if◌then◌else◌,
  Bool-cases, ℤ, pos, negsuc, add_size, size_limit, min, codes, Outcome, ok, throws, blocks,
  undefined, ◌>>=◌, ◌>>◌, throw_if, require, wait, wait_until, All, All-append, Returns,
  Returns-bind, Returns-map, Returns-both, take, drop, append-nil, append_assoc, ==_refl, ==_ne,
  ltb→lt, leb→le, lt→ltb, le→leb, IsInt32, ok-injective, logic_error, invalid_argument,
  runtime_error, length_error, out_of_range,
}

pub data State : Type 0 where
  disconnected connecting connected : State

-- What `connect` answers: at once, `EINPROGRESS` and the like, or an error.
pub data Answer : Type 0 where
  at_once in_progress : Answer
  refused : (error : ℕ) → Answer

abbrev pub econnaborted : ℕ
econnaborted = 103

-- `channel` is the socket that the channel watches. The lists are of the sockets that have been created,
-- closed and given to the callback, and of the errors that the other callback has been told.
pub record Connector : Type 0 where
  pub connect_requested : Bool
  pub state : State
  pub channel : Option ℕ
  pub takes_connections : Bool
  pub takes_errors : Bool
  pub created : List ℕ
  pub closed : List ℕ
  pub handed : List ℕ
  pub errors : List ℕ

abbrev pub is_disconnected : State → Bool
is_disconnected disconnected = true
is_disconnected _ = false

abbrev pub is_connecting : State → Bool
is_connecting connecting = true
is_connecting _ = false

abbrev pub is_connected : State → Bool
is_connected connected = true
is_connected _ = false

unfoldable pub new : (takes_connections takes_errors : Bool) → Connector
new takes_connections takes_errors = record {
  connect_requested = false;
  state = disconnected;
  channel = none;
  takes_connections = takes_connections;
  takes_errors = takes_errors;
  created = [];
  closed = [];
  handed = [];
  errors = [];
}

abbrev pub close_socket : ℕ → Connector → Connector
close_socket fd c = record c { closed = fd ∷ c.closed }

unfoldable pub report_error : ℕ → ℕ → Connector → Connector
report_error fd error c =
    let shut = close_socket fd c in
    if c.connect_requested && c.takes_errors
    then record shut { errors = error ∷ c.errors }
    else shut

-- The state is that of a connection; without anyone to take the socket it is closed.
unfoldable pub hand_over : Bool → ℕ → Connector → Connector
hand_over taken fd c =
    if taken
    then record c { state = connected; handed = fd ∷ c.handed }
    else record (close_socket fd c) { state = disconnected }

unfoldable pub answered : ℕ → Answer → Connector → Connector
unfolding hand_over report_error
answered fd at_once c = hand_over (c.connect_requested && c.takes_connections) fd c
answered fd in_progress c = record c { state = connecting; channel = some fd }
answered fd (refused error) c = report_error fd error c

-- The last store of `start` or `stop` at this point, if there is one.
abbrev pub stored : Option Bool → Connector → Connector
stored none c = c
stored (some wanted) c = record c { connect_requested = wanted }

abbrev pub told : Bool → ℕ → Connector → Connector
told takes_errors error c = if takes_errors then record c { errors = error ∷ c.errors } else c

-- The socket is a new one, or `createNonblocking` throws with an error. `between` is stored after the first
-- look at the flag.
unfoldable pub start_in_loop : (between : Option Bool) → ℕ ⊎ (ℕ × Answer) → Connector → Connector
unfolding answered
start_in_loop between (inl error) c =
    if not c.connect_requested || not (is_disconnected c.state)
    then stored between c
    else told c.takes_errors error (stored between c)
start_in_loop between (inr (fd, answer)) c =
    if not c.connect_requested || not (is_disconnected c.state)
    then stored between c
    else answered fd answer (record (stored between c) { created = fd ∷ c.created })

-- The handlers that take the channel away; `none` is the failing assertion that it is there.
unfoldable pub stop_with : Option ℕ → Connector → Connector
stop_with none c = c
stop_with (some fd) c = record (close_socket fd c) { channel = none; state = disconnected }

unfoldable pub stop_in_loop : Connector → Connector
unfolding stop_with
stop_in_loop c =
    if is_connecting c.state
    then stop_with c.channel c
    else if is_connected c.state
    then record c { state = disconnected }
    else c

-- `error` is what `SO_ERROR` says, 0 for none.
unfoldable pub write_with : (error : ℕ) → Option ℕ → Connector → Connector
unfolding report_error hand_over
write_with error none c = c
write_with error (some fd) c =
    let free = record c { channel = none } in
    if not (error == 0)
    then report_error fd error (record free { state = disconnected })
    else if not c.connect_requested
    then record (close_socket fd free) { state = disconnected }
    else hand_over c.takes_connections fd free

unfoldable pub handle_write : ℕ → Connector → Connector
unfolding write_with
handle_write error c = if is_connecting c.state then write_with error c.channel c else c

unfoldable pub error_with : (error : ℕ) → Option ℕ → Connector → Connector
unfolding report_error
error_with error none c = c
error_with error (some fd) c =
    report_error fd (if error == 0 then econnaborted else error)
      (record c { channel = none; state = disconnected })

unfoldable pub handle_error : ℕ → Connector → Connector
unfolding error_with
handle_error error c = if is_connecting c.state then error_with error c.channel c else c

pub data Event : Type 0 where
  starts stops : Event
  start_runs : (between : Option Bool) → ℕ ⊎ (ℕ × Answer) → Event
  stop_runs : Event
  writable failing : (error : ℕ) → Event

unfoldable pub step : Event → Connector → Connector
unfolding start_in_loop stop_in_loop handle_write handle_error
step starts c = record c { connect_requested = true }
step stops c = record c { connect_requested = false }
step (start_runs between socket) c = start_in_loop between socket c
step stop_runs c = stop_in_loop c
step (writable error) c = handle_write error c
step (failing error) c = handle_error error c

unfoldable pub run : List Event → Connector → Connector
unfolding step
run [] c = c
run (e ∷ events) c = run events (step e c)
