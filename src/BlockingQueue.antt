-- ===== src/BlockingQueue.antt =====
-- code/BlockingQueue/include/blocking_queue.hpp: the fixed-size `RingBuffer` and the
-- `BlockingQueue` that guards it with a mutex and two condition variables.
pub mod Fifo
pub mod Ring
pub mod Call
pub mod Channel
pub mod Schedule
pub mod Queue
mod Tests
