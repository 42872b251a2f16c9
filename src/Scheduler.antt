-- ===== src/Scheduler.antt =====
-- src/scheduler: the schedule of the control cycles. A time point or a `Clock::duration` is its number
-- of nanoseconds; the clock's readings and the results of the system's calls are arguments.
pub mod Portable
pub mod Linux
pub mod Windows
pub mod Setup
pub mod Platform
pub mod Timeline
pub mod Sleep
pub mod Spin
