-- ===== src/Tests.antt =====
-- The components at concrete inputs, in thousandths.
mod Robots
mod Buffers
mod Frames
mod Cycles
mod Waits
mod Rest
mod Loops
mod Programs
mod Aborts
mod Arrival
mod Delays
