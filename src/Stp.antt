-- ===== src/Stp.antt =====
-- stp/: the task queue, its containers, the thread pool and the timer.
pub mod Container
pub mod Queue
pub mod ThreadPool
pub mod Timer
mod Examples
