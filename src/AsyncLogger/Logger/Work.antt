-- ===== src/AsyncLogger/Logger/Work.antt =====
-- The worker of code/AsyncLogger/src/async_logger.cpp keeps the books.
use unix_notes.Prelude.{
  ℕ, ◌≤◌, ◌≡◌, refl, ap, Bool, true, false, List, [], ◌∷◌, arith, length, Outcome, ok, throws,
  blocks, undefined, ◌>>=◌,
}
use unix_notes.AsyncLogger.Writer.{Writer, Disk, write_active_buffer, flush_output, append_record}
use unix_notes.AsyncLogger.Logger.{
  LogRecord, Round, Worker, absent, fetching, looking, reading_pending, reading_active, holding,
  appending, judging, flushing, answering, clearing, ending, asleep, finished, crashed, Logger,
}
use unix_notes.AsyncLogger.Logger.Steps.{work_step, fetch_step, append_step, flush_worker}
use unix_notes.AsyncLogger.Logger.Books.{uncounted, Counted, Room}
use unix_notes.AsyncLogger.Logger.Callers.{sums_below}

fetch_step-Counted :
    (filled consumed : Bool) (queue : List LogRecord) (s : Logger)
    → s.queue ≡ queue
    → uncounted s.worker ≡ 0
    → Counted s
    → Counted (fetch_step filled consumed queue s)
unfolding fetch_step
fetch_step-Counted true consumed [] s e z h = ground (arith, z)
fetch_step-Counted true consumed (r ∷ queue) s e z h = ground (arith, z, ap length e)
fetch_step-Counted false consumed [] s e z h = ground (arith, z)
fetch_step-Counted false consumed (r ∷ queue) s e z h = ground (arith, z)

append_step-Counted :
    (r : LogRecord) (o : Outcome Writer) (s : Logger)
    → uncounted s.worker ≡ 0
    → Counted s
    → Counted (append_step r o s)
unfolding append_step
append_step-Counted r (ok w) s z h = ground (arith, z)
append_step-Counted r (throws e) s z h = ground (arith, z)
append_step-Counted r blocks s z h = ground (arith, z)
append_step-Counted r undefined s z h = ground (arith, z)

flush_worker-Counted :
    (round : Round) (o : Outcome Writer) (s : Logger)
    → uncounted s.worker ≡ 0
    → Counted s
    → Counted (flush_worker round o s)
unfolding flush_worker
flush_worker-Counted round (ok w) s z h = ground (arith, z)
flush_worker-Counted round (throws e) s z h = ground (arith, z)
flush_worker-Counted round blocks s z h = ground (arith, z)
flush_worker-Counted round undefined s z h = ground (arith, z)

-- The worker's next step is that of where it stands.
pub work_step-Counted :
    (format : LogRecord → List ℕ) (disk : Disk) (filled due : Bool) (w : Worker) (s : Logger)
    → s.worker ≡ w
    → length s.queue ≤ length s.enqueued
    → Room s
    → Counted s
    → Counted (work_step format disk filled due w s)
unfolding work_step
work_step-Counted format disk filled due absent s e q room h = h
work_step-Counted format disk filled due (fetching consumed) s e q room h =
    fetch_step-Counted filled consumed s.queue s refl (ap uncounted e) h
work_step-Counted format disk filled due (holding r) s e q room h =
    ground (arith, ap uncounted e, sums_below s.producers)
work_step-Counted format disk filled due (appending r) s e q room h =
    append_step-Counted r (append_record disk (format r) s.writer) s (ap uncounted e) h
work_step-Counted format disk filled due (looking consumed) s e q room h =
    ground (arith, ap uncounted e)
work_step-Counted format disk filled due (reading_pending consumed) s e q room h =
    ground (arith, ap uncounted e)
work_step-Counted format disk filled due (reading_active consumed) s e q room h =
    ground (arith, ap uncounted e)
work_step-Counted format disk filled due (judging round) s e q room h =
    ground (arith, ap uncounted e)
work_step-Counted format disk filled due (flushing round) s e q room h =
    flush_worker-Counted round (write_active_buffer disk s.writer >>= flush_output disk) s
      (ap uncounted e) h
work_step-Counted format disk filled due (answering round) s e q room h =
    ground (arith, ap uncounted e)
work_step-Counted format disk filled due (clearing round) s e q room h =
    ground (arith, ap uncounted e)
work_step-Counted format disk filled due (ending round) s e q room h =
    ground (arith, ap uncounted e)
work_step-Counted format disk filled due asleep s e q room h = ground (arith, ap uncounted e)
work_step-Counted format disk filled due (finished drained) s e q room h = h
work_step-Counted format disk filled due (crashed records) s e q room h = h
