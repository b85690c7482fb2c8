-- ===== src/AsyncLogger/Logger/Stop.antt =====
-- `stop` of code/AsyncLogger/src/async_logger.cpp after the last call of `log` that may still come through.
use unix_notes.Prelude.{
  take_all, pick, sum, Picked, pick-Picked, ℕ, ◌+◌, ◌≤◌, ◌<◌, ◌≡◌, refl, sym, ap, subst, ◌∙◌, ◌⊎◌,
  inl, inr, Bool, true, false, List, [], ◌∷◌, ◌++◌, Option, none, some, arith, length,
  length-append, size_limit, Outcome, ok, throws, blocks, undefined, ◌>>=◌, take,
}
use unix_notes.AsyncLogger.Writer.{Writer, Disk, write_active_buffer, flush_output, append_record}
use unix_notes.AsyncLogger.Logger.{
  OverflowPolicy, LogRecord, Producer, called, entered, trying, announced, refused, waiting, woken,
  placed, counted, returned, leaving, Flusher, targeted, raised, waits, Round, Worker, absent,
  fetching, looking, reading_pending, reading_active, holding, appending, judging, flushing,
  answering, clearing, ending, asleep, finished, crashed, Stopper, idle, saw_running, joining,
  Logger,
}
use unix_notes.AsyncLogger.Logger.Steps.{
  log, flush, log_step, flush_step, stop_step, work_step, fetch_step, append_step, flush_worker,
}
use unix_notes.AsyncLogger.Logger.Run.{
  Event, logs, flushes, producer, flusher, stops, works, log_picked, flush_picked, step, run,
}
use unix_notes.AsyncLogger.Logger.Steps.{is_running}
use unix_notes.AsyncLogger.Logger.Account.{Books}
use unix_notes.AsyncLogger.Logger.Promises.{opened, logger-Books, finished_written}

-- A call that may still put its record into the queue of a logger that does not run.
abbrev pub able : Producer → ℕ
able (trying r) = 1
able (announced r) = 1
able _ = 0

-- The worker has found nothing pending while the logger was stopping.
abbrev pub asking : Worker → Bool
asking (reading_active consumed) = true
asking (judging round) = round.drained
asking (flushing round) = round.drained
asking (answering round) = round.drained
asking (clearing round) = round.drained
asking (ending round) = round.drained
asking (finished drained) = drained
asking _ = false

-- No record comes into the queue any more, and the worker has not yet found nothing pending, or has
-- found it with the same records.
pub record Quiet (records : List LogRecord) (s : Logger) : Type 0 where
  pub halted : is_running s.state ≡ false
  pub unable : sum able s.producers ≡ 0
  pub same : s.enqueued ≡ records
  pub settled : (asking s.worker ≡ false) ⊎ (s.seen ≡ length s.enqueued)

module _ (records : List LogRecord) where
  log_step-Quiet :
      (p : Producer) (s : Logger) → able p ≡ 0 → Quiet records s → Quiet records (log_step p s)
  unfolding log_step flush
  log_step-Quiet (called r) s a h = ground (arith, h.settled)
  log_step-Quiet (entered r) s a h = ground (arith, h.settled)
  log_step-Quiet (trying r) s a h = absurd (omega arith)
  log_step-Quiet (announced r) s a h = absurd (omega arith)
  log_step-Quiet (refused r) s a h = ground (arith, h.settled)
  log_step-Quiet (waiting r) s a h = ground (arith, h.settled)
  log_step-Quiet (woken r) s a h = ground (arith, h.settled)
  log_step-Quiet (placed r) s a h = ground (arith, h.settled)
  log_step-Quiet (counted r) s a h = ground (arith, h.settled)
  log_step-Quiet (returned r) s a h = ground (arith, h.settled)
  log_step-Quiet leaving s a h = ground (arith, h.settled)

  log_picked-Quiet :
      (s : Logger) (o : Option (Producer × List Producer))
      → Picked able s.producers o
      → Quiet records s
      → Quiet records (log_picked o s)
  unfolding log_picked
  log_picked-Quiet s none a h = h
  log_picked-Quiet s (some (p, producers)) a h =
      log_step-Quiet p (record s { producers = producers }) (omega (arith, h.unable, a))
        (record {
          halted = h.halted;
          unable = omega (arith, h.unable, a);
          same = h.same;
          settled = h.settled;
        })

  flush_picked-Quiet :
      (s : Logger) (o : Option (Flusher × List Flusher))
      → Quiet records s
      → Quiet records (flush_picked o s)
  unfolding flush_picked flush_step
  flush_picked-Quiet s none h = h
  flush_picked-Quiet s (some (targeted target, flushers)) h = ground (arith, h.settled)
  flush_picked-Quiet s (some (raised target, flushers)) h = ground (arith, h.settled)
  flush_picked-Quiet s (some (waits target, flushers)) h = ground (arith, h.settled)

  stop_step-Quiet : (p : Stopper) (s : Logger) → Quiet records s → Quiet records (stop_step p s)
  unfolding stop_step
  stop_step-Quiet idle s h = ground (arith, h.settled)
  stop_step-Quiet saw_running s h = ground (arith, h.settled)
  stop_step-Quiet joining s h = ground (arith, h.settled)

  fetch_step-Quiet :
      (filled consumed : Bool) (queue : List LogRecord) (s : Logger)
      → Quiet records s
      → Quiet records (fetch_step filled consumed queue s)
  unfolding fetch_step
  fetch_step-Quiet true consumed [] s h = ground (arith, h.settled)
  fetch_step-Quiet true consumed (r ∷ queue) s h = ground (arith, h.settled)
  fetch_step-Quiet false consumed [] s h = ground (arith, h.settled)
  fetch_step-Quiet false consumed (r ∷ queue) s h = ground (arith, h.settled)

  append_step-Quiet :
      (r : LogRecord) (o : Outcome Writer) (s : Logger)
      → Quiet records s
      → Quiet records (append_step r o s)
  unfolding append_step
  append_step-Quiet r (ok w) s h = ground (arith, h.settled)
  append_step-Quiet r (throws e) s h = ground (arith, h.settled)
  append_step-Quiet r blocks s h = ground (arith, h.settled)
  append_step-Quiet r undefined s h = ground (arith, h.settled)

  flush_worker-Quiet :
      (round : Round) (o : Outcome Writer) (s : Logger)
      → s.worker ≡ flushing round
      → Quiet records s
      → Quiet records (flush_worker round o s)
  unfolding flush_worker
  flush_worker-Quiet round (ok w) s e h = ground (arith, h.settled, ap asking e)
  flush_worker-Quiet round (throws x) s e h = ground (arith, h.settled)
  flush_worker-Quiet round blocks s e h = ground (arith, h.settled)
  flush_worker-Quiet round undefined s e h = ground (arith, h.settled)

  work_step-Quiet :
      (format : LogRecord → List ℕ) (disk : Disk) (filled due : Bool) (w : Worker) (s : Logger)
      → s.worker ≡ w
      → Quiet records s
      → Quiet records (work_step format disk filled due w s)
  unfolding work_step
  work_step-Quiet format disk filled due absent s e h = h
  work_step-Quiet format disk filled due (fetching consumed) s e h =
      fetch_step-Quiet filled consumed s.queue s h
  work_step-Quiet format disk filled due (holding r) s e h = ground (arith, h.settled)
  work_step-Quiet format disk filled due (appending r) s e h =
      append_step-Quiet r (append_record disk (format r) s.writer) s h
  work_step-Quiet format disk filled due (looking consumed) s e h = ground (arith, h.settled)
  work_step-Quiet format disk filled due (reading_pending consumed) s e h =
      ground (arith, h.settled)
  work_step-Quiet format disk filled due (reading_active consumed) s e h =
      ground (arith, h.settled, ap asking e)
  work_step-Quiet format disk filled due (judging round) s e h =
      ground (arith, h.settled, ap asking e)
  work_step-Quiet format disk filled due (flushing round) s e h =
      flush_worker-Quiet round (write_active_buffer disk s.writer >>= flush_output disk) s e h
  work_step-Quiet format disk filled due (answering round) s e h =
      ground (arith, h.settled, ap asking e)
  work_step-Quiet format disk filled due (clearing round) s e h =
      ground (arith, h.settled, ap asking e)
  work_step-Quiet format disk filled due (ending round) s e h =
      ground (arith, h.settled, ap asking e)
  work_step-Quiet format disk filled due asleep s e h = ground (arith, h.settled)
  work_step-Quiet format disk filled due (finished drained) s e h = h
  work_step-Quiet format disk filled due (crashed held_records) s e h = h

  module _ (format : LogRecord → List ℕ) where
    step-Quiet : (e : Event) (s : Logger) → Quiet records s → Quiet records (step format e s)
    unfolding step log flush
    step-Quiet (logs r) s h = ground (arith, h.settled)
    step-Quiet flushes s h = ground (arith, h.settled)
    step-Quiet (producer place) s h =
        log_picked-Quiet s (pick place s.producers) (pick-Picked able place s.producers) h
    step-Quiet (flusher place) s h = flush_picked-Quiet s (pick place s.flushers) h
    step-Quiet stops s h = stop_step-Quiet s.stopper s h
    step-Quiet (works disk filled due) s h =
        work_step-Quiet format disk filled due s.worker s refl h

    pub run-Quiet :
        (events : List Event) (s : Logger) → Quiet records s → Quiet records (run format events s)
    unfolding run
    run-Quiet [] s h = h
    run-Quiet (e ∷ events) s h = run-Quiet events (step format e s) (step-Quiet e s h)

run-append :
    (format : LogRecord → List ℕ) (before after : List Event) (s : Logger)
    → run format (before ++ after) s ≡ run format after (run format before s)
unfolding run
run-append format [] after s = refl
run-append format (e ∷ before) after s = run-append format before after (step format e s)

all_written :
    (records : List LogRecord) (u : Logger)
    → Books u
    → Quiet records u
    → u.worker ≡ finished true
    → (u.writer.written_count ≡ u.seen) × (u.appended ≡ take u.seen u.enqueued)
    → (u.enqueued ≡ records)
      × (u.appended ≡ u.enqueued)
      × (u.writer.written_count ≡ length u.enqueued)
      × (u.accepted_count ≤ u.writer.written_count)
all_written records u books q ended (done, taken) = elim q.settled [
  | inl never ↦ absurd (cc (ap asking ended))
  | inr seen_all ↦ (
    q.same,
    taken ∙ take_all u.seen u.enqueued (omega arith),
    done ∙ seen_all,
    omega (arith, books.counted.accepted),
  )
]

module _ (format : LogRecord → List ℕ) (nonempty : (r : LogRecord) → 0 < length (format r))
    (max_queue_size min_level : ℕ) (cells : 2 ≤ max_queue_size) (policy : OverflowPolicy)
    (flush_on_error : Bool) (w : Writer) (disk : Disk) (path : List ℕ) (interval : ℕ) (s : Logger)
    (opens : opened max_queue_size min_level policy flush_on_error w disk path interval ≡ ok s)
    (before after : List Event) (room : length before + length after + 2 < size_limit) where
  -- Of a logger whose queue has two cells or more, whose start has returned and where the text of a
  -- record is never empty, over any interleaving of fewer than 2 ^ 64 - 2 events: where
  -- at some time the logger no longer runs, no call of `log` has passed its second look at the state
  -- without having tried the queue, and the worker has not yet found nothing pending, no record enters
  -- the queue after that, and once the worker has ended by itself every record that ever entered is
  -- written, in order, among them all that were accepted.
  pub stop_complete :
      is_running (run format before s).state ≡ false
      → sum able (run format before s).producers ≡ 0
      → asking (run format before s).worker ≡ false
      → (run format after (run format before s)).worker ≡ finished true
      → let u = run format after (run format before s) in
        (u.enqueued ≡ (run format before s).enqueued)
        × (u.appended ≡ u.enqueued)
        × (u.writer.written_count ≡ length u.enqueued)
        × (u.accepted_count ≤ u.writer.written_count)
  stop_complete halted unable asks ended =
      let split = run-append format before after s in
      let bound : length (before ++ after) + 2 < size_limit =
        omega (arith, room, length-append before after) in
      let u = run format after (run format before s) in
      all_written (run format before s).enqueued u
        (subst Books split (
          logger-Books format nonempty max_queue_size min_level cells policy flush_on_error w disk
            path interval s opens (before ++ after) bound))
        (run-Quiet (run format before s).enqueued format after (run format before s)
          (record { halted = halted; unable = unable; same = refl; settled = inl asks }))
        ended
        (subst (λ v. (v.writer.written_count ≡ v.seen) × (v.appended ≡ take v.seen v.enqueued))
          split
          (finished_written format nonempty max_queue_size min_level cells policy flush_on_error w
            disk path interval s opens (before ++ after) bound
            (subst (λ v. v.worker ≡ finished true) (sym split) ended)))
