-- ===== src/ControlLoop.antt =====
-- src/control/ControlLoop.cpp: the control cycle with its statistics, and the life of its thread.
pub mod Statistics
pub mod Cycle
pub mod Lifecycle
pub mod Counts
pub mod Command
pub mod Threads
pub mod Published
pub mod Telemetry
pub mod Delivery
pub mod Safe
pub mod Maxima
pub mod Extremes
pub mod Tally
pub mod Recovery
