-- ===== src/AsyncLogger/Logger/Load.antt =====
-- How the steps of `AsyncLogger` of code/AsyncLogger/src/async_logger.cpp use up the room for its counters.
use unix_notes.Prelude.{
  Picked, sum-one, ℕ, ◌+◌, ◌≤◌, ◌≡◌, refl, Bool, true, false, List, [], ◌∷◌, Option, none, some,
  arith, length-append, Outcome, ok, throws, blocks, undefined, ◌>>=◌,
}
use unix_notes.AsyncLogger.Writer.{Writer, Disk, write_active_buffer, flush_output, append_record}
use unix_notes.AsyncLogger.Logger.{
  LogRecord, Producer, called, entered, trying, announced, refused, waiting, woken, placed, counted,
  returned, leaving, Round, Worker, absent, fetching, looking, reading_pending, reading_active,
  holding, appending, judging, flushing, answering, clearing, ending, asleep, finished, crashed,
  Logger,
}
use unix_notes.AsyncLogger.Logger.Steps.{
  log, flush, log_step, work_step, fetch_step, append_step, flush_worker,
}
use unix_notes.AsyncLogger.Logger.Run.{log_picked}
use unix_notes.AsyncLogger.Logger.Books.{load}

log_step-load : (p : Producer) (s : Logger) → load (log_step p s) ≤ load s + 2
unfolding log_step flush
log_step-load (called r) s = ground arith
log_step-load (entered r) s = ground arith
log_step-load (trying r) s = ground arith
log_step-load (announced r) s = ground (arith, length-append s.enqueued (r ∷ []))
log_step-load (refused r) s = ground arith
log_step-load (waiting r) s = ground arith
log_step-load (woken r) s = ground arith
log_step-load (placed r) s = ground arith
log_step-load (counted r) s = ground arith
log_step-load (returned r) s = ground arith
log_step-load leaving s = ground arith

pub log_picked-load :
    (s : Logger) (o : Option (Producer × List Producer))
    → Picked (λ p. 1) s.producers o
    → load (log_picked o s) ≤ load s + 1
unfolding log_picked
log_picked-load s none d = omega arith
log_picked-load s (some (p, producers)) d = omega (
  arith,
  d,
  sum-one s.producers,
  sum-one producers,
  log_step-load p (record s { producers = producers }),
)

pub log-load : (r : LogRecord) (s : Logger) → load (log r s) ≤ load s + 1
unfolding log
log-load r s = ground arith

fetch_step-load :
    (filled consumed : Bool) (queue : List LogRecord) (s : Logger)
    → load (fetch_step filled consumed queue s) ≡ load s
unfolding fetch_step
fetch_step-load true consumed [] s = refl
fetch_step-load true consumed (r ∷ queue) s = refl
fetch_step-load false consumed [] s = refl
fetch_step-load false consumed (r ∷ queue) s = refl

append_step-load :
    (r : LogRecord) (o : Outcome Writer) (s : Logger) → load (append_step r o s) ≡ load s
unfolding append_step
append_step-load r (ok w) s = refl
append_step-load r (throws e) s = refl
append_step-load r blocks s = refl
append_step-load r undefined s = refl

flush_worker-load :
    (round : Round) (o : Outcome Writer) (s : Logger) → load (flush_worker round o s) ≡ load s
unfolding flush_worker
flush_worker-load round (ok w) s = refl
flush_worker-load round (throws e) s = refl
flush_worker-load round blocks s = refl
flush_worker-load round undefined s = refl

pub work_step-load :
    (format : LogRecord → List ℕ) (disk : Disk) (filled due : Bool) (w : Worker) (s : Logger)
    → load (work_step format disk filled due w s) ≡ load s
unfolding work_step
work_step-load format disk filled due absent s = refl
work_step-load format disk filled due (fetching consumed) s =
    fetch_step-load filled consumed s.queue s
work_step-load format disk filled due (holding r) s = refl
work_step-load format disk filled due (appending r) s =
    append_step-load r (append_record disk (format r) s.writer) s
work_step-load format disk filled due (looking consumed) s = ground arith
work_step-load format disk filled due (reading_pending consumed) s = ground arith
work_step-load format disk filled due (reading_active consumed) s = refl
work_step-load format disk filled due (judging round) s = ground arith
work_step-load format disk filled due (flushing round) s =
    flush_worker-load round (write_active_buffer disk s.writer >>= flush_output disk) s
work_step-load format disk filled due (answering round) s = ground arith
work_step-load format disk filled due (clearing round) s = refl
work_step-load format disk filled due (ending round) s = ground arith
work_step-load format disk filled due asleep s = refl
work_step-load format disk filled due (finished drained) s = refl
work_step-load format disk filled due (crashed records) s = refl
