-- ===== src/Scheduler.antt =====
-- lwip_py/utility/scheduler.py: the task queue and the single-thread executor.
pub mod Task
pub mod Queue
pub mod Future
pub mod Executor
pub mod Lock
mod Tests
