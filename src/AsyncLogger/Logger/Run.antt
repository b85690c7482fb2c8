-- ===== src/AsyncLogger/Logger/Run.antt =====
-- The threads of code/AsyncLogger/src/async_logger.cpp together: an event is a step of one of them, and a
-- list of events an interleaving, of a logger that has been started.
use unix_notes.Prelude.{pick, ℕ, Bool, List, [], ◌∷◌, Option, none, some}
use unix_notes.AsyncLogger.Writer.{Disk}
use unix_notes.AsyncLogger.Logger.{LogRecord, Producer, Flusher, Logger}
use unix_notes.AsyncLogger.Logger.Steps.{log, flush, log_step, flush_step, stop_step, work_step}

pub data Event : Type 0 where
  logs : LogRecord → Event
  flushes : Event
  producer flusher : (place : ℕ) → Event
  stops : Event
  works : Disk → (filled due : Bool) → Event

unfoldable pub log_picked : Option (Producer × List Producer) → Logger → Logger
log_picked none s = s
log_picked (some (p, producers)) s = log_step p (record s { producers = producers })

unfoldable pub flush_picked : Option (Flusher × List Flusher) → Logger → Logger
flush_picked none s = s
flush_picked (some (f, flushers)) s = flush_step f (record s { flushers = flushers })

module _ (format : LogRecord → List ℕ) where
  unfoldable pub step : Event → Logger → Logger
  unfolding log_picked flush_picked
  step (logs r) s = log r s
  step flushes s = flush s
  step (producer place) s = log_picked (pick place s.producers) s
  step (flusher place) s = flush_picked (pick place s.flushers) s
  step stops s = stop_step s.stopper s
  step (works disk filled due) s = work_step format disk filled due s.worker s

  unfoldable pub run : List Event → Logger → Logger
  unfolding step
  run [] s = s
  run (e ∷ events) s = run events (step e s)
