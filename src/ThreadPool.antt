-- ===== src/ThreadPool.antt =====
-- code/ThreadPool: a bounded ring of tasks that the threads share, a queue of tasks for each worker
-- that the others steal from, and the pool over them.
pub mod Ring
pub mod Local
pub mod Pool
mod Tests
