-- ===== src/Coro.antt =====
-- hound/src/coro: the scheduler of the coroutines, and the calls that wait in them.
pub mod Coroutine
pub mod Scheduler
pub mod Hook
