-- ===== src/AsyncLogger/Logger/Books.antt =====
-- What the counters of code/AsyncLogger/src/async_logger.cpp say of the calls, the queue and the writer.
use unix_notes.Prelude.{
  sum, ℕ, ◌+◌, ◌≤◌, ◌<◌, ◌≡◌, ◌⊎◌, Bool, false, List, [], ◌∷◌, ◌++◌, length, size_limit,
}
use unix_notes.AsyncLogger.Logger.{
  LogRecord, Producer, called, announced, refused, placed, returned, Round, Worker, reading_active,
  holding, appending, judging, flushing, answering, clearing, ending, finished, crashed, Logger,
}
use unix_notes.AsyncLogger.Logger.Written.{Taken}

-- The calls that have been counted as active, those that have announced a record that is not in the
-- queue, and those whose record is there and not yet accepted.
abbrev pub inside : Producer → ℕ
inside (called r) = 0
inside (returned r) = 0
inside _ = 1

abbrev pub announcing : Producer → ℕ
announcing (announced r) = 1
announcing (refused r) = 1
announcing _ = 0

abbrev pub placing : Producer → ℕ
placing (placed r) = 1
placing _ = 0

-- The records that the worker has taken out and the writer has not taken.
abbrev pub held : Worker → List LogRecord
held (holding r) = r ∷ []
held (appending r) = r ∷ []
held (crashed records) = records
held _ = []

-- Those that are still counted as pending.
abbrev pub uncounted : Worker → ℕ
uncounted (holding r) = 1
uncounted _ = 0

-- What the worker knows once it has found nothing pending, of the records that the writer has taken,
-- of those that had entered then, and of those that are written.
abbrev pub Drained : (taken seen : ℕ) → Round → Type 0
Drained taken seen round = (round.drained ≡ false) ⊎ (taken ≡ seen)

abbrev pub Finished : (taken seen written : ℕ) → Bool → Type 0
Finished taken seen written drained = (drained ≡ false) ⊎ ((taken ≡ seen) × (written ≡ seen))

abbrev pub Knows : (taken seen written : ℕ) → Worker → Type 0
Knows taken seen written (reading_active consumed) = taken ≡ seen
Knows taken seen written (judging round) = Drained taken seen round
Knows taken seen written (flushing round) = Drained taken seen round
Knows taken seen written (answering round) = Finished taken seen written round.drained
Knows taken seen written (clearing round) = Finished taken seen written round.drained
Knows taken seen written (ending round) = Finished taken seen written round.drained
Knows taken seen written (finished drained) = Finished taken seen written drained
Knows taken seen written _ = Unit {0}

-- The callers' side of the books.
pub record Counted (s : Logger) : Type 0 where
  pub active : s.active_producers ≡ sum inside s.producers
  pub pending : s.pending_count ≡ length s.queue + uncounted s.worker + sum announcing s.producers
  pub accepted : s.accepted_count + sum placing s.producers ≡ length s.enqueued

-- The worker's side: every record that has entered the queue has gone through the writer, is held by the
-- worker, or is in the queue, in this order.
pub record Ordered (s : Logger) : Type 0 where
  pub order : s.enqueued ≡ s.appended ++ (held s.worker ++ s.queue)
  pub written : Taken (length s.appended) s.writer
  pub flushed : s.last_flushed_count ≤ s.writer.written_count
  pub knows : Knows (length s.appended) s.seen s.writer.written_count s.worker

-- The room that the words have.
abbrev pub load : Logger → ℕ
load s = length s.enqueued + length s.producers

abbrev pub Room : Logger → Type 0
Room s = load s + 2 < size_limit
