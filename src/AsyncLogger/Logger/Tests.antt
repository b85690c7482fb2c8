-- ===== src/AsyncLogger/Logger/Tests.antt =====
-- Two threads that log and one that stops, with a worker that writes what it gets.
use unix_notes.Prelude.{
  sum, ℕ, zero, suc, ◌≤◌, ◌≡◌, refl, ◌⊎◌, true, false, List, [], ◌∷◌, ◌++◌, none, some, arith,
  length, pos, codes, ok, take,
}
use unix_notes.AsyncLogger.Writer.{
  Writer, Disk, update, fits, put, rotate_if_needed, write_active_buffer, flush_output,
  append_record,
}
use unix_notes.AsyncLogger.Logger.{running, stopped, block, LogRecord, fetching, finished, Logger}
use unix_notes.AsyncLogger.Logger.Steps.{
  new, start, validate_config, log, flush, log_step, flush_over, stop_step, work_step, fetch_step,
  append_step, flush_worker,
}
use unix_notes.AsyncLogger.Logger.Run.{
  Event, logs, flushes, producer, stops, works, log_picked, step, run,
}
use unix_notes.AsyncLogger.Logger.Steps.{is_running, is_failed, is_stopped}
use unix_notes.AsyncLogger.Logger.Promises.{opened, finished_written}
use unix_notes.AsyncLogger.Logger.Stop.{able, asking, stop_complete}
use unix_notes.AsyncLogger.Logger.Promises.{flush_first}

abbrev line_of : LogRecord → List ℕ
line_of r = r.sequence ∷ 10 ∷ []

abbrev empty_writer : Writer
empty_writer = record {
  max_file_size = 0;
  max_backup_files = 0;
  batch_buffer_size = 2048;
  active = [];
  active_records = 0;
  current_file_size = 0;
  written_count = 0;
  file = λ i. none;
  deleted = [];
}

abbrev working : Disk
working = record { writes = true; flushes = true; removes = true; renames = true; opens = true }

abbrev hello : LogRecord
hello = record {
  timestamp = 0;
  level = 2;
  thread_id = 1;
  file = [];
  line = pos 1;
  function = [];
  message = codes "hello";
  sequence = 0;
}

abbrev worker_turns : ℕ → List Event
worker_turns zero = []
worker_turns (suc n) = works working true false ∷ worker_turns n

abbrev producer_turns : ℕ → List Event
producer_turns zero = []
producer_turns (suc n) = producer 0 ∷ producer_turns n

abbrev ready : Logger
ready = record (new 4 0 block false empty_writer) {
  state = running;
  worker = fetching false;
  writer = record empty_writer { file = update 0 (some []) (λ i. none) };
}

ready_opened : opened 4 0 block false empty_writer working (codes "a.log") 1000 ≡ ok ready
unfolding start validate_config new
ready_opened = refl

-- A call of `log` goes through, then the logger is told to stop.
abbrev logged : List Event
logged = logs hello ∷ producer_turns 7 ++ (stops ∷ stops ∷ [])

abbrev written_out : Logger → ℕ × ℕ × ℕ
written_out s = (s.accepted_count, s.writer.written_count, length s.queue)

logged_stops : written_out (run line_of (logged ++ worker_turns 12) ready) ≡ (1, 1, 0)
unfolding run step log log_step log_picked stop_step work_step fetch_step append_step flush_worker
    new flush append_record rotate_if_needed fits put write_active_buffer flush_output
logged_stops = refl

-- A call that has looked at the state before it changed puts its record into the queue after the worker
-- has read the pending count and ends before the worker reads the active producers: its record is
-- accepted, and the logger stops with it in the queue.
abbrev late : List Event
late =
    (logs hello ∷ producer_turns 2)
    ++ (stops ∷ stops ∷ [])
    ++ worker_turns 3
    ++ producer_turns 5
    ++ worker_turns 6
    ++ (stops ∷ [])

late_lost :
    (written_out (run line_of late ready) ≡ (1, 0, 1))
    × ((run line_of late ready).worker ≡ finished true)
    × ((run line_of late ready).state ≡ stopped)
unfolding run step log log_step log_picked stop_step work_step fetch_step append_step flush_worker
    new flush append_record rotate_if_needed fits put write_active_buffer flush_output
late_lost = (refl, refl, refl)

-- One record is in the queue and written before its call counts it; another is then accepted, and a
-- flush that follows finds as many written as accepted, though the second is in the queue.
abbrev early : List Event
early =
    (logs hello ∷ producer_turns 4)
    ++ worker_turns 5
    ++ (works working true true ∷ works working true true ∷ [])
    ++ (logs hello ∷ producer_turns 6)
    ++ (flushes ∷ [])

early_flush :
    (written_out (run line_of early ready) ≡ (1, 1, 1))
    × (flush_over (run line_of early ready).accepted_count (run line_of early ready) ≡ true)
unfolding run step log log_step log_picked stop_step work_step fetch_step append_step flush_worker
    new flush append_record rotate_if_needed fits put write_active_buffer flush_output
early_flush = (refl, refl)

finished_written_example :
    ((run line_of late ready).writer.written_count ≡ (run line_of late ready).seen)
    × ((run line_of late ready).appended
        ≡ take (run line_of late ready).seen (run line_of late ready).enqueued)
finished_written_example =
    finished_written line_of (λ r. omega arith) 4 0 (omega arith) block false empty_writer working
      (codes "a.log") 1000 ready ready_opened late (omega arith) late_lost.1

flush_over_one : flush_over 1 (run line_of early ready) ≡ true
unfolding run flush log work_step new log_step append_record
flush_over_one = refl

flush_first_example :
    (is_failed (run line_of early ready).state ≡ true)
    ⊎ (is_stopped (run line_of early ready).state ≡ true)
    ⊎ ((1 ≤ (run line_of early ready).writer.written_count)
        × (take 1 (run line_of early ready).enqueued ≡ take 1 (run line_of early ready).appended))
flush_first_example =
    flush_first line_of (λ r. omega arith) 4 0 (omega arith) block false empty_writer working
      (codes "a.log") 1000 ready ready_opened early (omega arith) 1 flush_over_one

logged_state :
    (is_running (run line_of logged ready).state ≡ false)
    × (sum able (run line_of logged ready).producers ≡ 0)
    × (asking (run line_of logged ready).worker ≡ false)
unfolding run step log log_step log_picked stop_step work_step fetch_step append_step flush_worker
    new flush append_record rotate_if_needed fits put write_active_buffer flush_output
logged_state = (refl, refl, refl)

logged_ended : (run line_of (worker_turns 12) (run line_of logged ready)).worker ≡ finished true
unfolding run step log log_step log_picked stop_step work_step fetch_step append_step flush_worker
    new flush append_record rotate_if_needed fits put write_active_buffer flush_output
logged_ended = refl

stop_complete_example :
    let u = run line_of (worker_turns 12) (run line_of logged ready) in
    (u.enqueued ≡ (run line_of logged ready).enqueued)
    × (u.appended ≡ u.enqueued)
    × (u.writer.written_count ≡ length u.enqueued)
    × (u.accepted_count ≤ u.writer.written_count)
stop_complete_example =
    stop_complete line_of (λ r. omega arith) 4 0 (omega arith) block false empty_writer working
      (codes "a.log") 1000 ready ready_opened logged (worker_turns 12) (omega arith) logged_state.0
      logged_state.1 logged_state.2 logged_ended
