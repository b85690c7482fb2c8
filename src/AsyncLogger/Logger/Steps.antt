-- ===== src/AsyncLogger/Logger/Steps.antt =====
-- The steps of the callers and of the worker of code/AsyncLogger/src/async_logger.cpp.
use unix_notes.Prelude.{
  sub_size, ℕ, Bool, true, false, not, ◌&&◌, ◌||◌, List, [], ◌∷◌, ◌++◌, some, length, ltb, leb,
  ◌==◌, if◌then◌else◌, add_size, Outcome, ok, ◌>>=◌, ◌>>◌, throw_if, logic_error, invalid_argument,
  runtime_error,
}
use unix_notes.AsyncLogger.Writer.{
  Writer, Disk, update, bytes, write_active_buffer, flush_output, append_record,
}
use unix_notes.AsyncLogger.Logger.{
  State, created, running, stopping, stopped, failed, OverflowPolicy, block, drop_newest,
  error_level, max_log_message_size, max_log_file_name_size, max_log_function_name_size,
  formatted_log_record_size, assign, LogRecord, Producer, called, entered, trying, announced,
  refused, waiting, woken, placed, counted, returned, leaving, Flusher, targeted, raised, waits,
  Round, Worker, absent, fetching, looking, reading_pending, reading_active, holding, appending,
  judging, flushing, answering, clearing, ending, asleep, finished, crashed, Stopper, idle,
  saw_running, joining, Logger,
}

abbrev pub is_running : State → Bool
is_running running = true
is_running _ = false

abbrev pub is_failed : State → Bool
is_failed failed = true
is_failed _ = false

abbrev pub is_stopping : State → Bool
is_stopping stopping = true
is_stopping _ = false

abbrev pub is_created : State → Bool
is_created created = true
is_created _ = false

abbrev pub drops : OverflowPolicy → Bool
drops block = false
drops drop_newest = true

-- `validate_config`, of the path and of the interval.
unfoldable pub validate_config : (file_path : List ℕ) (interval : ℕ) → Logger → Outcome (Unit {0})
validate_config file_path interval s = do
  throw_if (length file_path == 0) invalid_argument
  throw_if (s.max_queue_size == 0) invalid_argument
  throw_if (interval == 0) invalid_argument
  throw_if (ltb s.writer.batch_buffer_size formatted_log_record_size) invalid_argument

-- The constructor, for a file and buffers that are given.
unfoldable pub new : (max_queue_size min_level : ℕ) → OverflowPolicy → Bool → Writer → Logger
new max_queue_size min_level policy flush_on_error w = record {
  max_queue_size = max_queue_size;
  min_level = min_level;
  overflow_policy = policy;
  flush_on_error = flush_on_error;
  state = created;
  queue = [];
  pending_count = 0;
  active_producers = 0;
  next_sequence = 0;
  accepted_count = 0;
  dropped_count = 0;
  last_flushed_count = 0;
  flush_target_count = 0;
  flush_requested = false;
  has_error = false;
  writer = record w { active = []; active_records = 0; written_count = 0 };
  producers = [];
  flushers = [];
  worker = absent;
  stopper = idle;
  enqueued = [];
  appended = [];
  seen = 0;
}

-- `start`: the file is opened where its end is.
unfoldable pub start : Disk → (file_path : List ℕ) (interval : ℕ) → Logger → Outcome Logger
unfolding validate_config
start disk file_path interval s = do
  throw_if (not (is_created s.state)) logic_error
  validate_config file_path interval s
  throw_if (not disk.opens) runtime_error
  ok (record s {
    state = running;
    worker = fetching false;
    writer = record s.writer {
      current_file_size = length (bytes (s.writer.file 0));
      file = update 0 (some (bytes (s.writer.file 0))) s.writer.file;
    };
  })

-- The beginning of `log`.
unfoldable pub log : LogRecord → Logger → Logger
log r s =
    if ltb r.level s.min_level
    then s
    else if is_running s.state
    then record s { producers = called r ∷ s.producers }
    else s

abbrev pub becomes : Producer → Logger → Logger
becomes p s = record s { producers = p ∷ s.producers }

-- `finish_producer`, without the notification.
abbrev pub finish_producer : Logger → Logger
finish_producer s = record s { active_producers = sub_size s.active_producers 1 }

-- `flush`: the state and the target are read.
unfoldable pub flush : Logger → Logger
flush s =
    if is_running s.state || is_stopping s.state
    then record s { flushers = targeted s.accepted_count ∷ s.flushers }
    else s

-- The texts of a record, cut to their sizes, and its number.
abbrev pub filled_record : ℕ → LogRecord → LogRecord
filled_record number r = record r {
  file = assign max_log_file_name_size r.file;
  function = assign max_log_function_name_size r.function;
  message = assign max_log_message_size r.message;
  sequence = number;
}

-- The next step of a call of `log`, which has been taken out of the list of calls. The queue is a list
-- here, as the ring in Ring.antt is when it has two cells or more.
unfoldable pub log_step : Producer → Logger → Logger
unfolding flush
log_step (called r) s =
    becomes (entered r) (record s { active_producers = add_size s.active_producers 1 })
log_step (entered r) s =
    if is_running s.state
    then becomes (trying (filled_record (add_size s.next_sequence 1) r))
        (record s { next_sequence = add_size s.next_sequence 1 })
    else finish_producer s
log_step (trying r) s =
    becomes (announced r) (record s { pending_count = add_size s.pending_count 1 })
log_step (announced r) s =
    if ltb (length s.queue) s.max_queue_size
    then becomes (placed r)
        (record s { queue = s.queue ++ (r ∷ []); enqueued = s.enqueued ++ (r ∷ []) })
    else becomes (refused r) s
log_step (refused r) s =
    let back = record s { pending_count = sub_size s.pending_count 1 } in
    if drops s.overflow_policy
    then becomes leaving (record back { dropped_count = add_size s.dropped_count 1 })
    else becomes (waiting r) back
log_step (waiting r) s =
    if not (is_running s.state) || ltb (length s.queue) s.max_queue_size
    then becomes (woken r) s
    else becomes (waiting r) s
log_step (woken r) s = if is_running s.state then becomes (trying r) s else becomes leaving s
log_step (placed r) s =
    becomes (counted r) (record s { accepted_count = add_size s.accepted_count 1 })
log_step (counted r) s = becomes (returned r) (finish_producer s)
log_step leaving s = finish_producer s
log_step (returned r) s = if s.flush_on_error && leb error_level r.level then flush s else s

abbrev pub is_stopped : State → Bool
is_stopped stopped = true
is_stopped _ = false

-- The predicate that `flush` waits for.
abbrev pub flush_over : ℕ → Logger → Bool
flush_over target s = leb target s.last_flushed_count || is_failed s.state || is_stopped s.state

-- The next step of a call of `flush`; `update_max` leaves the greater of the two.
unfoldable pub flush_step : Flusher → Logger → Logger
flush_step (targeted target) s = record s {
  flush_target_count = if ltb s.flush_target_count target then target else s.flush_target_count;
  flushers = raised target ∷ s.flushers;
}
flush_step (raised target) s = record s {
  flush_requested = true;
  flushers = waits target ∷ s.flushers;
}
flush_step (waits target) s =
    if flush_over target s then s else record s { flushers = waits target ∷ s.flushers }

abbrev pub joined : Logger → Logger
joined s =
    if is_failed s.state
    then record s { stopper = idle }
    else record s { state = stopped; stopper = idle }

-- The steps of `stop`: it reads the state, stores the new one, and joins the worker.
unfoldable pub stop_step : Stopper → Logger → Logger
stop_step idle s = elim s.state [
  | created ↦ record s { state = stopped }
  | stopped ↦ s
  | running ↦ record s { stopper = saw_running }
  | stopping ↦ record s { stopper = joining }
  | failed ↦ record s { stopper = joining }
]
stop_step saw_running s = record s { state = stopping; stopper = joining }
stop_step joining s = elim s.worker [
  | finished drained ↦ joined s
  | crashed held ↦ joined s
  | _ ↦ s
]

-- `fail_worker`.
abbrev pub fail_worker : List LogRecord → Logger → Logger
fail_worker held s = record s { has_error = true; state = failed; worker = crashed held }

-- `try_dequeue`, which may also fail while a producer is still filling the cell.
unfoldable pub fetch_step : (filled consumed : Bool) → List LogRecord → Logger → Logger
fetch_step true consumed (r ∷ queue) s = record s { queue = queue; worker = holding r }
fetch_step _ consumed _ s = record s { worker = looking consumed }

-- `append_record`, which throws where the disk fails.
unfoldable pub append_step : LogRecord → Outcome Writer → Logger → Logger
append_step r (ok w) s = record s {
  writer = w;
  appended = s.appended ++ (r ∷ []);
  worker = fetching true;
}
append_step r _ s = fail_worker (r ∷ []) s

-- `write_active_buffer` and `flush_output`; only the worker writes.
unfoldable pub flush_worker : Round → Outcome Writer → Logger → Logger
flush_worker round (ok w) s = record s {
  writer = w;
  last_flushed_count = w.written_count;
  worker = answering round;
}
flush_worker round _ s = fail_worker [] s

-- The next step of the worker: `filled` and `due` say what the cell of the queue and the clock do.
unfoldable pub work_step :
    (LogRecord → List ℕ) → Disk → (filled due : Bool) → Worker → Logger → Logger
unfolding fetch_step append_step flush_worker
work_step format disk filled due absent s = s
work_step format disk filled due (fetching consumed) s = fetch_step filled consumed s.queue s
work_step format disk filled due (holding r) s = record s {
  pending_count = sub_size s.pending_count 1;
  worker = appending r;
}
work_step format disk filled due (appending r) s =
    append_step r (append_record disk (format r) s.writer) s
work_step format disk filled due (looking consumed) s =
    if is_stopping s.state then record s { worker = reading_pending consumed } else record s {
      worker = judging (record { current = s.state; drained = false; consumed = consumed });
    }
work_step format disk filled due (reading_pending consumed) s =
    if s.pending_count == 0
    then record s { worker = reading_active consumed; seen = length s.enqueued }
    else record s {
      worker = judging (record { current = stopping; drained = false; consumed = consumed });
    }
work_step format disk filled due (reading_active consumed) s = record s {
  worker =
      judging
        (record { current = stopping; drained = s.active_producers == 0; consumed = consumed });
}
work_step format disk filled due (judging round) s =
    if s.flush_requested || due || round.drained
    then record s { worker = flushing round }
    else record s { worker = ending round }
work_step format disk filled due (flushing round) s =
    flush_worker round (write_active_buffer disk s.writer >>= flush_output disk) s
work_step format disk filled due (answering round) s =
    if leb s.flush_target_count s.last_flushed_count
    then record s { worker = clearing round }
    else record s { worker = ending round }
work_step format disk filled due (clearing round) s = record s {
  flush_requested = false;
  worker = ending round;
}
work_step format disk filled due (ending round) s =
    if round.drained
    then record s { worker = finished true }
    else if is_failed round.current
    then record s { worker = finished false }
    else if round.consumed || not (s.pending_count == 0)
    then record s { worker = fetching false }
    else record s { worker = asleep }
work_step format disk filled due asleep s = record s { worker = fetching false }
work_step format disk filled due (finished drained) s = s
work_step format disk filled due (crashed held) s = s
