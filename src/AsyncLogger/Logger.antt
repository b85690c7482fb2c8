-- ===== src/AsyncLogger/Logger.antt =====
-- `AsyncLogger` of code/AsyncLogger/src/async_logger.cpp: the threads that log, those that flush or
-- stop, and the worker. Each access to a shared word is a step of its own, or one that no other thread
-- can tell from it. The queue is that of mpsc_ring_buffer.h, seen as the list of its values; the file
-- is that of the writer.
pub mod Steps
pub mod Run
pub mod Written
pub mod Books
pub mod Callers
pub mod Work
pub mod Order
pub mod Load
pub mod Account
pub mod Promises
pub mod Stop
mod Tests
use unix_notes.Prelude.{ℕ, ◌+◌, ◌-◌, List, ℤ, Bool, length, take, min}
use unix_notes.AsyncLogger.Writer.{Writer}

pub data State : Type 0 where
  created running stopping stopped failed : State

pub data OverflowPolicy : Type 0 where
  block drop_newest : OverflowPolicy

abbrev pub error_level : ℕ
error_level = 4

abbrev pub max_log_message_size : ℕ
max_log_message_size = 512

abbrev pub max_log_file_name_size : ℕ
max_log_file_name_size = 192

abbrev pub max_log_function_name_size : ℕ
max_log_function_name_size = 128

abbrev pub formatted_log_record_size : ℕ
formatted_log_record_size = 1024

-- `FixedText::assign`: what does not fit is cut off.
abbrev pub assign : (capacity : ℕ) → List ℕ → List ℕ
assign capacity value = take (min (length value) (capacity - 1)) value

pub record LogRecord : Type 0 where
  pub timestamp : ℕ
  pub level : ℕ
  pub thread_id : ℕ
  pub file : List ℕ
  pub line : ℤ
  pub function : List ℕ
  pub message : List ℕ
  pub sequence : ℕ

-- Where a call of `log` stands: `called` when it has found the logger running, `entered` when it has been counted as active, `trying` before it counts
-- its record as pending, `announced` before `try_enqueue`, `refused` after one that failed, `waiting`
-- for space, `woken` after that, `placed` once its record is in the queue, `counted` once it has been
-- accepted, `leaving` where it is to return false, and `returned` when it is no longer active.
pub data Producer : Type 0 where
  called entered trying refused waiting woken : LogRecord → Producer
  announced placed counted returned : LogRecord → Producer
  leaving : Producer

-- Where a call of `flush` stands: with its target, with the maximum raised, or waiting.
pub data Flusher : Type 0 where
  targeted raised waits : ℕ → Flusher

-- What the worker has found out in a round of its loop.
pub record Round : Type 0 where
  pub current : State
  pub drained : Bool
  pub consumed : Bool

-- Where the worker stands in its loop: before `try_dequeue`, with a record, with one that it no longer
-- counts as pending, before it reads the state, before it reads the pending count, before it reads the
-- active producers, before it looks whether a flush is due, in the flush, before it compares with the
-- target, before it clears the request, at the end of the round, asleep, or over, also by an exception
-- with what it held.
pub data Worker : Type 0 where
  absent : Worker
  fetching looking reading_pending reading_active : (consumed : Bool) → Worker
  holding appending : LogRecord → Worker
  judging flushing answering clearing ending : Round → Worker
  asleep : Worker
  finished : (drained : Bool) → Worker
  crashed : (held : List LogRecord) → Worker

-- Where the one call of `stop` that has the mutex stands.
pub data Stopper : Type 0 where
  idle saw_running joining : Stopper

-- `enqueued` and `appended` are all the records that have entered the queue and that have gone through
-- the writer, and `seen` is how many had entered when the worker last found none pending.
pub record Logger : Type 0 where
  pub max_queue_size : ℕ
  pub min_level : ℕ
  pub overflow_policy : OverflowPolicy
  pub flush_on_error : Bool
  pub state : State
  pub queue : List LogRecord
  pub pending_count : ℕ
  pub active_producers : ℕ
  pub next_sequence : ℕ
  pub accepted_count : ℕ
  pub dropped_count : ℕ
  pub last_flushed_count : ℕ
  pub flush_target_count : ℕ
  pub flush_requested : Bool
  pub has_error : Bool
  pub writer : Writer
  pub producers : List Producer
  pub flushers : List Flusher
  pub worker : Worker
  pub stopper : Stopper
  pub enqueued : List LogRecord
  pub appended : List LogRecord
  pub seen : ℕ
