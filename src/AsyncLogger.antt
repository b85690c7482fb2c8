-- ===== src/AsyncLogger.antt =====
-- code/AsyncLogger: the queue between the threads that log and the one that writes.
pub mod Ring
pub mod Writer
pub mod Logger
mod Tests
