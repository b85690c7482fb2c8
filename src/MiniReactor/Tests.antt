-- ===== src/MiniReactor/Tests.antt =====
-- The buffer at a concrete input: two readable bytes at the end of the vector, so that a write has
-- to move them down first.
use unix_notes.Prelude.{
  ℕ, List, Bool, true, false, Outcome, ◌≡◌, inl, inr, some, none, refl, [], ◌∷◌, ◌++◌, replicate,
  arith, Returns, ok,
}
use unix_notes.MiniReactor.Connection.{
  State, Connection, wrote, would_block, connected, connect_established, new, handle_close,
  send_all, queue_rest, after_send, send_in_loop, shutdown_in_loop, drain, handle_write,
}
use unix_notes.MiniReactor.Connection.Sound.{Sound}
use unix_notes.MiniReactor.Connection.Run.{
  Event, sends, writes, shuts, closed, step, run, run-Sound, established-Sound,
}
use unix_notes.MiniReactor.Connection.Emptied.{handle_write_empties}
use unix_notes.MiniReactor.Connector
use unix_notes.MiniReactor.Connector.{
  at_once, in_progress, starts, stops, start_runs, stop_runs, writable, failing,
}
use unix_notes.MiniReactor.Connector.Sockets.{Tidy, run-Tidy}
use unix_notes.MiniReactor.Connector.Silent.{stopped_silent}
use unix_notes.MiniReactor.Buffer
use unix_notes.MiniReactor.Buffer.{Buffer, append, retrieve}
use unix_notes.MiniReactor.Buffer.Refine.{Holds}
use unix_notes.MiniReactor.Buffer.{ensure_writable_bytes, make_space, write_at, resize}
use unix_notes.MiniReactor.Buffer.Text.{append-Holds}

abbrev sample : Buffer
sample = record { data_ = replicate 10 0 ++ (1 ∷ 2 ∷ []); reader_index = 10; writer_index = 12 }

abbrev sample-Holds : Holds sample (1 ∷ 2 ∷ [])
sample-Holds = record {
  front = replicate 10 0;
  back = [];
  parts = refl;
  reader_at = refl;
  writer_at = refl;
  room = omega arith;
  small = omega arith;
}

append-Holds_example : Returns (append (3 ∷ 4 ∷ []) sample) (λ b. Holds b (1 ∷ 2 ∷ 3 ∷ 4 ∷ []))
append-Holds_example = append-Holds (3 ∷ 4 ∷ []) sample (1 ∷ 2 ∷ []) sample-Holds (omega arith)

-- Growing moves the readable bytes down to index 8.
append_moves :
    append (3 ∷ 4 ∷ []) sample
    ≡ ok (record {
      data_ = replicate 8 0 ++ (1 ∷ 2 ∷ 3 ∷ 4 ∷ []);
      reader_index = 8;
      writer_index = 12;
    })
unfolding append ensure_writable_bytes make_space write_at resize
append_moves = refl

-- A message of which the socket takes one byte, a shutdown, the rest, and the close.
abbrev exchange : List Event
exchange =
    sends (wrote 0 ∷ would_block ∷ []) (1 ∷ 2 ∷ 3 ∷ [])
    ∷ shuts
    ∷ writes (wrote 0 ∷ wrote 5 ∷ [])
    ∷ closed
    ∷ []

run-Sound_example : Returns (run (λ c. ok c) exchange (connect_established new)) Sound
unfolding connect_established new Buffer.new
run-Sound_example =
    run-Sound (λ c. ok c) (λ c h. (c, refl, h)) exchange (connect_established new)
      (omega arith, λ d e. (tt, λ d e. (tt, λ d e. (tt, λ d e. tt)))) established-Sound

abbrev summary : Outcome Connection → List ℕ × Bool × ℕ
summary (ok c) = (c.wire, c.shut, c.closes)
summary _ = ([], false, 0)

abbrev small_buffer : Buffer
small_buffer = record { data_ = replicate 12 0; reader_index = 8; writer_index = 8 }

abbrev small_connection : Connection
small_connection = record {
  state = connected;
  reading = true;
  writing = false;
  input = small_buffer;
  output = small_buffer;
  accepted = [];
  wire = [];
  dropped = [];
  shut = false;
  closes = 0;
}

exchange_ends : summary (run (λ c. ok c) exchange small_connection) ≡ (1 ∷ 2 ∷ 3 ∷ [], true, 1)
unfolding run step send_in_loop send_all after_send queue_rest append ensure_writable_bytes write_at
    shutdown_in_loop handle_write drain retrieve handle_close Buffer.retrieve_all
exchange_ends = refl

-- Two bytes are left when the connection is to be closed.
abbrev half_sent : Connection
half_sent = record {
  state = State.disconnecting;
  reading = true;
  writing = true;
  input = small_buffer;
  output = sample;
  accepted = 7 ∷ 1 ∷ 2 ∷ [];
  wire = 7 ∷ [];
  dropped = [];
  shut = false;
  closes = 0;
}

abbrev half_sent-Sound : Sound half_sent
half_sent-Sound = record {
  unsent = 1 ∷ 2 ∷ [];
  unread = [];
  held = sample-Holds;
  entered = record {
    front = replicate 8 0;
    back = replicate 4 0;
    parts = refl;
    reader_at = refl;
    writer_at = refl;
    room = omega arith;
    small = omega arith;
  };
  books = refl;
  kept = inl refl;
  interest = inr (refl, inr (refl, omega arith));
  half = inl refl;
  once = inl refl;
}

handle_write_empties_example : Returns (handle_write (wrote 0 ∷ wrote 0 ∷ []) half_sent) (λ d.
    (d.wire ≡ d.accepted) × (d.writing ≡ false) × (d.state ≡ State.disconnecting) × (d.shut ≡ true))
handle_write_empties_example =
    handle_write_empties (0 ∷ 0 ∷ []) half_sent half_sent-Sound refl (omega arith)

-- A first attempt fails, a second goes through after the first `stop` has been taken back.
abbrev attempts : List Connector.Event
attempts =
    starts
    ∷ start_runs none (inr (5, in_progress))
    ∷ writable 111
    ∷ start_runs (some true) (inr (6, in_progress))
    ∷ stops
    ∷ starts
    ∷ writable 0
    ∷ []

run-Tidy_example : Tidy (Connector.run attempts (Connector.new true true))
run-Tidy_example = run-Tidy attempts true true

attempts_end :
    let c = Connector.run attempts (Connector.new true true) in
    (c.handed ≡ 6 ∷ []) × (c.closed ≡ 5 ∷ []) × (c.errors ≡ 111 ∷ [])
unfolding Connector.run Connector.step Connector.new Connector.start_in_loop Connector.answered
    Connector.handle_write Connector.write_with Connector.report_error Connector.hand_over
attempts_end = (refl, refl, refl)

-- `stop` comes while the socket 5 is being connected, which then is closed.
abbrev stop_between : List Connector.Event
stop_between = start_runs (some false) (inr (5, at_once)) ∷ writable 0 ∷ failing 1 ∷ []

abbrev wanted : Connector.Connector
wanted = record (Connector.new true true) { connect_requested = true }

stopped_silent_example :
    let c = Connector.run stop_between wanted in
    (c.handed ≡ wanted.handed) × (c.errors ≡ wanted.errors)
unfolding Connector.new
stopped_silent_example =
    stopped_silent (start_runs (some false) (inr (5, at_once))) (writable 0 ∷ failing 1 ∷ []) wanted
      refl (refl, (refl, tt))
