-- ===== src/TimerScheduler.antt =====
-- code/TimerScheduler: timers that a worker thread hands to a thread pool when they are due. State
-- has the critical sections, one function for each place that holds the mutex; System has the
-- threads, as events that enter these sections in any order.
pub mod State
pub mod System
pub mod Cancel
pub mod Account
pub mod Stop
pub mod Ids
pub mod Places
pub mod Due
pub mod Heap
mod Tests
